-- ===== src/Content/Reading.antt =====
-- pkg/content/readerat.go against the content that the host serves.
use container_builder_shim.Common.{
  ℕ, zero, suc, ◌+◌, ◌-◌, ◌*◌, ◌≤◌, ◌<◌, ◌≡◌, refl, sym, ap, subst, ◌∙◌, true, false, Option, none,
  some, [], ◌∷◌, ◌++◌, if◌then◌else◌, ◌==◌, nat_eq, length, take, drop, arith, Bool-cases, ◌⊎◌, inl,
  inr, length-take, length-drop, take_of_length-le, take-append_left, drop-drop,
}
use container_builder_shim.Common.Int.{ℤ, pos, ltb_ℤ, ◌+ℤ◌, +ℤ_small, i64, i64_small, i64_half}
use container_builder_shim.Common.Bytes.{Bytes}
use container_builder_shim.Prefetch.Reader.{answered, Error, eof, Flight, accepted}
use container_builder_shim.Prefetch.Reader.Slice.{chunk_of}
use container_builder_shim.Prefetch.Reader.Sound.{IsHonest}
use container_builder_shim.Content.{
  ImageTransfer, BlobReader, Host, BlobRead, has_error, received_transfer, read_blob_at, read_blob,
  advance, joined, seek, seek_to, Whence, seek_start, seek_current, seek_end, seek_invalid,
  read_all, attempt_of, zeros,
}

-- The host answers with the bytes of the content that were asked for, as far as there are any.
abbrev pub IsServing : Bytes → Host → Type 0
IsServing content host =
    (off want : ℕ)
    → (it : ImageTransfer) × (host (pos off) want ≡ some (some it))
      × (has_error it ≡ false)
      × (it.payload ≡ take want (drop off content))

take-append-drop : (n : ℕ) (xs : Bytes) → take n xs ++ drop (length (take n xs)) xs ≡ xs
unfolding take drop
take-append-drop zero xs = refl
take-append-drop (suc n) [] = refl
take-append-drop (suc n) (x ∷ xs) = ap (λ ys. x ∷ ys) (take-append-drop n xs)

nil_of_length : (xs : Bytes) → length xs ≤ 0 → xs ≡ []
nil_of_length [] h = refl
nil_of_length (x ∷ xs) h = absurd (omega arith)

answered-injective :
    {b c : Bytes} {m n : ℕ} {d e : Option Error}
    → answered b m d ≡ answered c n e
    → (b ≡ c) × (m ≡ n) × (d ≡ e)
answered-injective h = (cc, cc, cc)

seek_to_bounds :
    (position : ℤ) (r : BlobReader)
    → ((seek_to position r).1 ≡ none) × ((seek_to position r).0 ≡ r)
      ⊎ ((seek_to position r).1 ≡ some (seek_to position r).0.index)
        × (ltb_ℤ (seek_to position r).0.index (pos 0) ≡ false)
        × (ltb_ℤ r.size (seek_to position r).0.index ≡ false)
unfolding seek_to
seek_to_bounds position r = elim (Bool-cases (ltb_ℤ position (pos 0))) [
  | inl e ↦ rw (e, seek_to) (inl (refl, refl))
  | inr e ↦ elim (Bool-cases (ltb_ℤ r.size position)) [
    | inl f ↦ rw (e, f, seek_to) (inl (refl, refl))
    | inr f ↦ rw (e, f, seek_to) (inr (refl, e, f))
  ]
]

module _ (content : Bytes) (host : Host) (serving : IsServing content host) where
  read_blob_at-content :
      (want off : ℕ)
      → read_blob_at host want (pos off) ≡ (
        take want (drop off content),
        (if length (take want (drop off content)) == 0 then some eof else none),
      )
  unfolding read_blob_at received_transfer
  read_blob_at-content want off =
      let (it, e, fine, same) = serving off want in
      let all : take want it.payload ≡ take want (drop off content) =
        ap (take want) same
        ∙ take_of_length-le want (take want (drop off content))
            (omega (arith, length-take want (drop off content))) in
      rw (e, read_blob_at, received_transfer)
        (rw (fine, all)
          (elim (Bool-cases (length (take want (drop off content)) == 0)) [
            | inl z ↦ rw z (
                ap (λ b. (b, some eof))
                  (sym (nil_of_length (take want (drop off content)) (ground arith))))
            | inr z ↦ rw z refl
          ]))

  read_blob-end :
      (want i size : ℕ)
      → (length (take want (drop i content)) == 0) ≡ true
      → read_blob host want (record { index = pos i; size = pos size })
        ≡ (record { index = pos i; size = pos size }, (take want (drop i content), some eof))
  unfolding read_blob advance
  read_blob-end want i size z =
      let r : BlobReader = record { index = pos i; size = pos size } in
      ap (advance r) (read_blob_at-content want i)
      ∙ ap (λ t. advance r (take want (drop i content), (if t then some eof else none))) z

  read_blob-some :
      (want i size : ℕ)
      → (length (take want (drop i content)) == 0) ≡ false
      → i + length (take want (drop i content)) < i64_half
      → read_blob host want (record { index = pos i; size = pos size }) ≡ (
        record { index = pos (i + length (take want (drop i content))); size = pos size },
        (take want (drop i content), none),
      )
  unfolding read_blob advance
  read_blob-some want i size z small =
      let r : BlobReader = record { index = pos i; size = pos size } in
      let got = take want (drop i content) in
      ap (advance r) (read_blob_at-content want i)
      ∙ ap (λ t. advance r (got, (if t then some eof else none))) z
      ∙ ap (λ k. (let r' : BlobReader = record { index = k; size = pos size } in (r', (got, none))))
          (+ℤ_small i (length got) small)

  -- A reader of the content from `i` on returns the rest of it, then `io.EOF`.
  rest_of :
      (want fuel i size : ℕ)
      → 0 < want
      → length content < fuel + i
      → i ≤ length content
      → length content < i64_half
      → read_all host want fuel (record { index = pos i; size = pos size })
        ≡ (drop i content, some eof)
  unfolding read_all joined
  rest_of want zero i size w f h small = absurd (omega arith)
  rest_of want (suc fuel) i size w f h small =
      let got = take want (drop i content) in
      let len = length-take want (drop i content) in
      let left = length-drop i content in
      let go = λ (s : BlobReader × BlobRead). joined s.1 (read_all host want fuel s.0) in
      elim (Bool-cases (length got == 0)) [
        | inl z ↦
            let k : length got ≡ 0 = ground arith in
            let e : drop i content ≡ [] =
              nil_of_length (drop i content) (omega (arith, len, left, k)) in
            ap go (read_blob-end want i size z)
            ∙ ap (λ b. (b, some eof)) (nil_of_length got (omega (arith, k)) ∙ sym e)
        | inr z ↦
            let k : 0 < length got = ground arith in
            let fits : i + length got ≤ length content = omega (arith, len, left) in
            let more = rest_of want fuel (i + length got) size w (omega (arith, k)) fits small in
            ap go (read_blob-some want i size z (omega (arith, fits)))
            ∙ ap (λ m. joined (got, none) m) more
            ∙ ap (λ b. (b, some eof))
                (ap (λ b. got ++ b) (sym (drop-drop (length got) i content))
                  ∙ take-append-drop want (drop i content))
      ]

  -- Reading until there is an error, any positive number of bytes at a time, returns the whole
  -- content and ends with `io.EOF`, where the content is shorter than 2 ^ 63 bytes and the host
  -- serves it; one more round than there are bytes is enough.
  pub read_all-content :
      (want : ℕ)
      → 0 < want
      → length content < i64_half
      → read_all host want
          (suc (length content))
          (record { index = pos 0; size = pos (length content) })
        ≡ (content, some eof)
  unfolding drop
  read_all-content want w small =
      rest_of want (suc (length content)) 0 (length content) w (omega arith) (omega arith) small

-- An answer to a request: it fails, it has an error, or it has the bytes of the content that were
-- asked for, as far as there are any.
abbrev pub IsTruthful : Bytes → ℕ → ℕ → Option (Option ImageTransfer) → Type 0
IsTruthful content off want answer =
    (received_transfer answer ≡ none)
    ⊎ ((it : ImageTransfer) × (received_transfer answer ≡ some it)
        × ((has_error it ≡ true) ⊎ (it.payload ≡ take want (drop off content))))

-- A read that is accepted has the content's bytes.
read_truthful :
    (content : Bytes) (host : Host) (want off : ℕ)
    → IsTruthful content off want (host (pos off) want)
    → accepted (read_blob_at host want (pos off)).1 ≡ true
    → (read_blob_at host want (pos off)).0 ≡ take want (drop off content)
unfolding read_blob_at accepted
read_truthful content host want off (inl failed) = rw (failed, read_blob_at) (λ bad. absurd cc)
read_truthful content host want off (inr (it, got, inl wrong)) =
    rw (got, read_blob_at) (rw wrong (λ bad. absurd cc))
read_truthful content host want off (inr (it, got, inr same)) =
    let all : take want it.payload ≡ take want (drop off content) =
      ap (take want) same
      ∙ take_of_length-le want (take want (drop off content))
          (omega (arith, length-take want (drop off content))) in
    rw (got, read_blob_at)
      (elim (Bool-cases (has_error it)) [
        | inl wrong ↦ rw wrong (λ bad. absurd cc)
        | inr fine ↦
            rw (fine, all)
              (elim (Bool-cases (length (take want (drop off content)) == 0)) [
                | inl z ↦
                    rw z (λ _. sym (nil_of_length (take want (drop off content)) (ground arith)))
                | inr z ↦ rw z (λ _. refl)
              ])
      ])

-- The attempts of the prefetcher through this reader are honest, where the chunk's offset is an
-- int64 and every answer of the host, which may change from attempt to attempt, fails, has an error,
-- or has the content's bytes that were asked for, as far as there are any: an attempt that the
-- prefetcher accepts has the whole chunk in its buffer, as far as the content goes. A shorter answer
-- without an error is not covered.
pub attempt_of-IsHonest :
    (content : Bytes) (hosts : ℕ → Host) (size index : ℕ) (f : Flight)
    → index * size < i64_half
    → ((attempt : ℕ)
        → IsTruthful content (index * size) size (hosts attempt (pos (index * size)) size))
    → ((attempt : ℕ) → f.answer attempt ≡ attempt_of (hosts attempt) size index)
    → IsHonest content size index f
unfolding attempt_of
attempt_of-IsHonest content hosts size index f small truthful same attempt bytes n e h good =
    let chunk = chunk_of content size index in
    let off : i64 (index * size) ≡ pos (index * size) = i64_small (index * size) small in
    let read = read_blob_at (hosts attempt) size (pos (index * size)) in
    let at : answered bytes n e
        ≡ answered (read.0 ++ zeros (size - length read.0)) (length read.0) read.1 =
      sym h
      ∙ same attempt
      ∙ ap
          (λ o.
            let r = read_blob_at (hosts attempt) size o in
            answered (r.0 ++ zeros (size - length r.0)) (length r.0) r.1)
          off in
    let (b, m, x) = answered-injective at in
    let p : read.0 ≡ chunk =
      read_truthful content (hosts attempt) size (index * size) (truthful attempt)
        (subst (λ y. accepted y ≡ true) x good) in
    let n_eq : n ≡ length chunk = m ∙ ap length p in
    (
      n_eq,
      ap (λ k. take k bytes) n_eq
          ∙ ap (take (length chunk)) b
          ∙ ap (λ q. take (length chunk) (q ++ zeros (size - length q))) p
          ∙ take-append_left (length chunk) chunk (zeros (size - length chunk)) (omega arith)
          ∙ take_of_length-le (length chunk) chunk (omega arith),
    )

-- `Seek` moves to a position between 0 and the size, and says so, or leaves the reader as it is.
pub seek_bounds :
    (offset : ℤ) (w : Whence) (r : BlobReader)
    → ((seek offset w r).1 ≡ none) × ((seek offset w r).0 ≡ r)
      ⊎ ((seek offset w r).1 ≡ some (seek offset w r).0.index)
        × (ltb_ℤ (seek offset w r).0.index (pos 0) ≡ false)
        × (ltb_ℤ r.size (seek offset w r).0.index ≡ false)
unfolding seek
seek_bounds offset seek_start r = seek_to_bounds offset r
seek_bounds offset seek_current r = seek_to_bounds (r.index +ℤ offset) r
seek_bounds offset seek_end r = seek_to_bounds (r.size +ℤ offset) r
seek_bounds offset seek_invalid r = inl (refl, refl)
