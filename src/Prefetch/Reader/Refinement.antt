-- ===== src/Prefetch/Reader/Refinement.antt =====
-- `ReadAt` against the content that the reader stands for.
use Prim.Native.Nat.{min}
use container_builder_shim.Common.{
  ℕ, zero, suc, ◌+◌, ◌-◌, ◌*◌, ◌≤◌, ◌<◌, ◌≡◌, refl, sym, ap, ap₂, ◌∙◌, List, [], ◌∷◌, ◌++◌, arith,
  length, take, drop, none, All, Bool-cases, inl, inr, nat_eq, ◌==◌, take-append-take-drop,
  take_of_length-le, ◌⊎◌, drop_of_length-le, length-take, length-drop,
}
use container_builder_shim.Common.Bytes.{Bytes}
use container_builder_shim.Common.Dict.{Dict}
use container_builder_shim.Prefetch.Cache.{Chunk, ChunkCache}
use container_builder_shim.Prefetch.Reader.{
  Error, Flight, Result, ok, err, get_or_fetch, Background, in_background, Copied, copy_chunks,
}
use container_builder_shim.Prefetch.Reader.Slice.{
  chunk_of, take-drop-chunk, drop_next_chunk, length-chunk_of,
}
use container_builder_shim.Prefetch.Reader.Sound.{
  IsRight, IsSound, IsHonest, IsHonestStep, get_or_fetch-Gives, in_background-IsSound,
}

pub Result-cases {ℓ} :
    {A : Type ℓ} (r : Result A) → ((a : A) × (r ≡ ok a)) ⊎ ((e : Error) × (r ≡ err e))
Result-cases (ok a) = inl (a, refl)
Result-cases (err e) = inr (e, refl)

-- What was copied is a prefix of what was asked for, and all of it unless there was an error.
pub record Copies (asked : Bytes) (want : ℕ) (r : Copied) : Type 0 where
  pub count : ℕ
  pub within : count ≤ want
  pub prefix : r.bytes ≡ take count asked
  pub whole : r.error ≡ none → r.bytes ≡ take want asked

nil_of_length {ℓ} : {A : Type ℓ} (xs : List A) → length xs ≤ 0 → xs ≡ []
nil_of_length [] h = refl
nil_of_length (x ∷ xs) h = absurd (omega arith)

module _ (content : Bytes) (size index offset : ℕ) where
  -- Where a chunk ends at or before the offset, so does the content.
  drop_past_chunk :
      (have : ℕ)
      → have ≡ length (chunk_of content size index)
      → offset < size
      → have ≤ offset
      → drop (index * size + offset) content ≡ []
  drop_past_chunk have e o h =
      drop_of_length-le (index * size + offset) content
        (omega (arith, length-chunk_of content size index))

  module _ (bytes : Bytes) (have want : ℕ) (right : IsRight content size index bytes have) where
    next_bytes :
        (k : ℕ)
        → offset < have
        → k ≤ want - min (have - offset) want
        → take k (drop (suc index * size + 0) content)
          ≡ take k (drop (min (have - offset) want) (drop (index * size + offset) content))
    unfolding take
    next_bytes zero h l = refl
    next_bytes (suc k) h l =
        let e : min (have - offset) want ≡ have - offset = omega arith in
        rw e (ap (take (suc k)) (drop_next_chunk content size index offset have right.0 h))

    joined :
        (later : Bytes) (k : ℕ)
        → offset < have
        → have ≤ size
        → k ≤ want - min (have - offset) want
        → later ≡ take k (drop (suc index * size + 0) content)
        → take (min (have - offset) want) (drop offset bytes) ++ later
          ≡ take (min (have - offset) want + k) (drop (index * size + offset) content)
    joined later k h fits le e =
        let count = min (have - offset) want in
        ap₂ (λ a b. a ++ b)
          (take-drop-chunk content bytes size index offset have count fits right.1 (omega arith))
          (e ∙ next_bytes k h le)
        ∙ take-append-take-drop count k (drop (index * size + offset) content)

    -- One chunk's bytes, with what the later rounds copy.
    join-Copies :
        (rest : Copied)
        → offset < have
        → have ≤ size
        → Copies (drop (suc index * size + 0) content) (want - min (have - offset) want) rest
        → Copies (drop (index * size + offset) content) want (record rest {
          bytes = take (min (have - offset) want) (drop offset bytes) ++ rest.bytes;
        })
    join-Copies rest h fits r = record {
      count = min (have - offset) want + r.count;
      within = omega (arith, r.within);
      prefix = joined rest.bytes r.count h fits r.within r.prefix;
      whole = λ fine.
          joined rest.bytes (want - min (have - offset) want) h fits (omega arith) (r.whole fine)
          ∙ ap (λ k. take k (drop (index * size + offset) content)) (omega arith);
    }

    needed_after :
        (left : ℕ)
        → offset < have
        → have ≤ size
        → length (take want (drop (index * size + offset) content)) + offset ≤ suc left * size
        → length (take (want - min (have - offset) want) (drop (suc index * size + 0) content)) + 0
          ≤ left * size
    needed_after left h fits l =
        let m = min (have - offset) want in
        omega (
          arith,
          right.0,
          length-chunk_of content size index,
          length-take want (drop (index * size + offset) content),
          length-drop (index * size + offset) content,
          length-take (want - m) (drop (suc index * size + 0) content),
          length-drop (suc index * size + 0) content,
        )

module _ (content : Bytes) (size : ℕ) (shuffle : Dict ℕ Chunk → Dict ℕ Chunk) (max_retries : ℕ)
    (flight : ℕ → Flight) (others : ℕ → List Background)
    (honest : (index : ℕ) → IsHonest content size index (flight index))
    (honest_others : (index : ℕ) → All (IsHonestStep content size) (others index)) where
  -- From a sound cache, with an honest reader for every chunk and honest steps of other goroutines,
  -- the copy of enough chunks gives a prefix of the bytes asked for, and all of them, as far as the
  -- content goes, where it ends without an error. The offset lies in the first chunk.
  pub copy_chunks-Copies :
      (left index offset want : ℕ) (c : ChunkCache)
      → IsSound content size c.chunk_map
      → offset < size
      → length (take want (drop (index * size + offset) content)) + offset ≤ left * size
      → Copies
          (drop (index * size + offset) content)
          want
          (copy_chunks shuffle max_retries flight others left index offset want c)
  unfolding copy_chunks take
  copy_chunks-Copies zero index offset want c s o l = record {
    count = 0;
    within = omega arith;
    prefix = refl;
    whole =
        λ _. sym (nil_of_length (take want (drop (index * size + offset) content)) (omega arith));
  }
  copy_chunks-Copies (suc left) index offset want c s o l =
      let c0 = in_background shuffle max_retries c (others index) in
      let s0 =
        in_background-IsSound content size shuffle max_retries (others index) c
          (honest_others index) s in
      let r = get_or_fetch shuffle max_retries (flight index) index c0 in
      let got =
        get_or_fetch-Gives content size shuffle max_retries (flight index) index c0 (honest index)
          s0 in
      elim (Bool-cases (want == 0)) [
        | inl e ↦
            rw (e, copy_chunks)
              (record {
                count = 0;
                within = omega arith;
                prefix = refl;
                whole = λ _.
                    let z : want ≡ 0 = ground arith in
                    sym (
                      nil_of_length (take want (drop (index * size + offset) content)) (
                        omega (arith, length-take want (drop (index * size + offset) content), z)));
              })
        | inr e ↦ elim (Result-cases r.1) [
          | inr (x, f) ↦
              rw (e, f, copy_chunks)
                (record {
                  count = 0;
                  within = omega arith;
                  prefix = refl;
                  whole = λ bad. absurd (ground arith);
                })
          | inl (ch, f) ↦
              rw (e, f, copy_chunks)
                (elim (Bool-cases (ch.size - offset == 0)) [
                  | inl z ↦ rw z (record {
                    count = 0;
                    within = omega arith;
                    prefix = refl;
                    whole = λ _. sym (
                        ap (take want) (
                          drop_past_chunk content size index offset ch.size (got.1 ch f).0 o
                            (ground arith))
                        ∙ take_of_length-le want [] (omega arith));
                  })
                  | inr z ↦ rw z (
                      join-Copies content size index offset ch.bytes ch.size want (got.1 ch f) _
                        (ground arith)
                        (omega (arith, (got.1 ch f).0, length-chunk_of content size index))
                        (copy_chunks-Copies left (suc index) 0 _ r.0 got.0 (omega arith) (
                          needed_after content size index offset ch.bytes ch.size want (got.1 ch f)
                            left (ground arith)
                            (omega (arith, (got.1 ch f).0, length-chunk_of content size index)) l)))
                ])
        ]
      ]
