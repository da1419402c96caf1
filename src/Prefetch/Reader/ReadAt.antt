-- ===== src/Prefetch/Reader/ReadAt.antt =====
-- pkg/prefetch/prefetch.go: what `ReadAt` returns, for a reader with known content.
use container_builder_shim.Common.{
  ℕ, zero, suc, ◌+◌, ◌-◌, ◌*◌, ◌/◌, ◌%◌, ◌≤◌, ◌<◌, ◌≡◌, ◌≢◌, refl, sym, ap, subst, ◌∙◌, List, [],
  arith, length, take, drop, Bool, true, false, none, some, All, if◌then◌else◌, leb, Bool-cases,
  Option-cases, inl, inr, nat_eq, ◌==◌, length-take, ◌⊎◌,
}
use native.Mathlib.Nat.{div-add-mod', mod-lt}
use container_builder_shim.Common.Int.{
  ℤ, pos, pos_part, ltb_ℤ, ◌+ℤ◌, ◌-ℤ◌, quot, i64_half, +ℤ_small, -ℤ_small,
}
use container_builder_shim.Common.Bytes.{Bytes}
use container_builder_shim.Common.Dict.{Dict}
use container_builder_shim.Prefetch.Cache.{Chunk, ChunkCache, evict_before, get_chunk}
use container_builder_shim.Prefetch.Reader.{
  Error, eof, Flight, err, Background, Copied, copy_chunks, Prefetcher, rounds, get_or_fetch,
  fetch_chunk, take_slot, Slot, acquired, done, timed_out, read_and_store, accepted,
  read_chunk_with_retries, in_background, chunk_length, schedule_required, schedule_read_ahead,
  schedule_reads, is_cut, final_error, copy_range, window_end_chunk, read_range, read_at,
}
use container_builder_shim.Prefetch.Reader.Sound.{
  IsSound, IsHonest, IsHonestStep, evict_before-IsSound,
}
use container_builder_shim.Prefetch.Reader.Refinement.{Copies, copy_chunks-Copies, Result-cases}
use container_builder_shim.Prefetch.Reader.Window.{cache-schedule_required, cache-read_ahead_from}
use container_builder_shim.Prefetch.Reader.Ends.{
  rounds_cover, several_chunks, cut_within, within_content, not_refused, open_read, fine_copy,
  end_error,
}

module _ (shuffle : Dict ℕ Chunk → Dict ℕ Chunk) (max_retries : ℕ) where
  read_and_store-ne-eof :
      (f : Flight) (index : ℕ) (c : ChunkCache)
      → (read_and_store shuffle max_retries f index c).1 ≢ err eof
  unfolding read_and_store
  read_and_store-ne-eof f index c =
      elim (Bool-cases (accepted (read_chunk_with_retries max_retries f).2)) [
        | inl e ↦ rw e (λ bad. cc)
        | inr e ↦ rw e (λ bad. cc)
      ]

  take_slot-ne-eof :
      (slot : Slot) (f : Flight) (index : ℕ) (c : ChunkCache)
      → (take_slot shuffle max_retries slot f index c).1 ≢ err eof
  unfolding take_slot
  take_slot-ne-eof acquired f index c = read_and_store-ne-eof f index c
  take_slot-ne-eof done f index c = λ bad. cc
  take_slot-ne-eof timed_out f index c = λ bad. cc

  -- A fetch fails with an error of its own, never with `io.EOF`.
  get_or_fetch-ne-eof :
      (f : Flight) (index : ℕ) (c : ChunkCache)
      → (get_or_fetch shuffle max_retries f index c).1 ≢ err eof
  unfolding get_or_fetch
  get_or_fetch-ne-eof f index c = elim (Option-cases (get_chunk f.now c index).1) [
    | inr (x, e) ↦ rw (e, get_or_fetch) (λ bad. cc)
    | inl e ↦
        let c' = (get_chunk f.now c index).0 in
        rw (e, get_or_fetch)
          (elim (Option-cases (get_chunk f.now c' index).1) [
            | inr (x, e') ↦ rw (e', fetch_chunk) (λ bad. cc)
            | inl e' ↦
                rw (e', fetch_chunk) (take_slot-ne-eof f.slot f index (get_chunk f.now c' index).0)
          ])
  ]

  copy_chunks-ne-eof :
      (flight : ℕ → Flight) (others : ℕ → List Background) (left index offset want : ℕ)
      (c : ChunkCache)
      → (copy_chunks shuffle max_retries flight others left index offset want c).error ≢ some eof
  unfolding copy_chunks
  copy_chunks-ne-eof flight others zero index offset want c = λ bad. cc
  copy_chunks-ne-eof flight others (suc left) index offset want c =
      let c0 = in_background shuffle max_retries c (others index) in
      let r = get_or_fetch shuffle max_retries (flight index) index c0 in
      elim (Bool-cases (want == 0)) [
        | inl e ↦ rw e (λ bad. cc)
        | inr e ↦ elim (Result-cases r.1) [
          | inr (x, f) ↦
              rw (e, f, copy_chunks) (λ bad. get_or_fetch-ne-eof (flight index) index c0 (f ∙ cc))
          | inl (ch, f) ↦
              rw (e, f, copy_chunks)
                (elim (Bool-cases (ch.size - offset == 0)) [
                  | inl z ↦ rw z (λ bad. cc)
                  | inr z ↦ rw z (copy_chunks-ne-eof flight others left (suc index) 0 _ r.0)
                ])
        ]
      ]

-- A slot is free, and one of the attempts succeeds.
pub record IsPrompt (max_retries : ℕ) (f : Flight) : Type 0 where
  pub free : f.slot ≡ acquired
  pub reads : accepted (read_chunk_with_retries max_retries f).2 ≡ true

module _ (shuffle : Dict ℕ Chunk → Dict ℕ Chunk) (max_retries : ℕ) where
  get_or_fetch-ok :
      (f : Flight) (index : ℕ) (c : ChunkCache)
      → IsPrompt max_retries f
      → (e : Error) → (get_or_fetch shuffle max_retries f index c).1 ≢ err e
  unfolding get_or_fetch take_slot read_and_store
  get_or_fetch-ok f index c prompt x = elim (Option-cases (get_chunk f.now c index).1) [
    | inr (_, e) ↦ rw (e, get_or_fetch) (λ bad. cc)
    | inl e ↦
        let c' = (get_chunk f.now c index).0 in
        rw (e, get_or_fetch)
          (elim (Option-cases (get_chunk f.now c' index).1) [
            | inr (_, e') ↦ rw (e', fetch_chunk) (λ bad. cc)
            | inl e' ↦ rw (e', fetch_chunk, prompt.free, prompt.reads) (λ bad. cc)
          ])
  ]

  copy_chunks-no_error :
      (flight : ℕ → Flight) (others : ℕ → List Background)
      → ((index : ℕ) → IsPrompt max_retries (flight index))
      → (left index offset want : ℕ) (c : ChunkCache)
      → (copy_chunks shuffle max_retries flight others left index offset want c).error ≡ none
  unfolding copy_chunks
  copy_chunks-no_error flight others prompt zero index offset want c = refl
  copy_chunks-no_error flight others prompt (suc left) index offset want c =
      let c0 = in_background shuffle max_retries c (others index) in
      let r = get_or_fetch shuffle max_retries (flight index) index c0 in
      elim (Bool-cases (want == 0)) [
        | inl e ↦ rw e refl
        | inr e ↦ elim (Result-cases r.1) [
          | inr (x, f) ↦ absurd (get_or_fetch-ok (flight index) index c0 (prompt index) x f)
          | inl (ch, f) ↦
              rw (e, f, copy_chunks)
                (elim (Bool-cases (ch.size - offset == 0)) [
                  | inl z ↦ rw z refl
                  | inr z ↦
                      rw z (copy_chunks-no_error flight others prompt left (suc index) 0 _ r.0)
                ])
        ]
      ]

-- An open prefetcher with chunks of this size, whose cache is sound for the content.
pub record Serves (content : Bytes) (size : ℕ) (p : Prefetcher) : Type 0 where
  pub is_open : p.closed ≡ false
  pub chunk_eq : p.config.chunk_size ≡ pos size
  pub size_eq : p.size ≡ pos (length content)
  pub chunk_pos : 0 < size
  pub sound : IsSound content size p.cache.chunk_map

cache-schedule_read_ahead :
    (end : ℕ) (w : ℤ) (p : Prefetcher) → (schedule_read_ahead end w p).1.cache ≡ p.cache
unfolding schedule_read_ahead
cache-schedule_read_ahead end w p =
    let limit = quot p.config.window_size (chunk_length p) in
    cache-read_ahead_from (rounds (suc end) w)
      (pos_part (if ltb_ℤ (pos 1000) limit then pos 1000 else limit)) (suc end) p

cache-schedule_reads :
    (start : ℕ) (end : ℤ) (p : Prefetcher) → (schedule_reads start end p).1.cache ≡ p.cache
unfolding schedule_reads
cache-schedule_reads start end p =
    let p' = (schedule_required (rounds start end) start p).1 in
    cache-schedule_read_ahead (pos_part end) (window_end_chunk p' (pos start)) p'
    ∙ cache-schedule_required (rounds start end) start p

module _ (content : Bytes) (size : ℕ) (shuffle : Dict ℕ Chunk → Dict ℕ Chunk) (flight : ℕ → Flight)
    (others : ℕ → List Background) (p : Prefetcher) (len offset : ℕ)
    (serves : Serves content size p)
    (honest : (index : ℕ) → IsHonest content size index (flight index))
    (honest_others : (index : ℕ) → All (IsHonestStep content size) (others index))
    (some_asked : 0 < len) (inside : offset < length content)
    (small : offset + len < i64_half) where
  -- The copy that `ReadAt` makes.
  abbrev copy_of_read : Copied
  copy_of_read =
      copy_chunks shuffle (pos_part p.config.max_retries) flight others
        (suc ((offset + len - 1) / size) - offset / size) (offset / size) (offset % size) len
        (evict_before p.cache (offset / size))

  copy_of_read-Copies : Copies (drop offset content) len copy_of_read
  copy_of_read-Copies =
      let split = div-add-mod' offset size in
      subst (λ k. Copies (drop k content) len copy_of_read) split
        (copy_chunks-Copies content size shuffle (pos_part p.config.max_retries) flight others
          honest honest_others (suc ((offset + len - 1) / size) - offset / size) (offset / size)
          (offset % size) len (evict_before p.cache (offset / size))
          (evict_before-IsSound content size p.cache (offset / size) serves.sound)
          (mod-lt offset serves.chunk_pos)
          (omega (
            arith,
            rounds_cover size offset len serves.chunk_pos some_asked,
            length-take len (drop (offset / size * size + offset % size) content),
          )))

  -- The last chunk of the range, as the code computes it.
  last_chunk : quot (pos offset +ℤ pos len -ℤ pos 1) size ≡ pos ((offset + len - 1) / size)
  last_chunk = rw (+ℤ_small offset len small, -ℤ_small (offset + len) 1 small (omega arith)) refl

  -- The range does not pass the end within one chunk.
  abbrev Uncut : Type 0
  Uncut =
      is_cut p.size offset len (offset / chunk_length p)
        (quot (pos offset +ℤ pos len -ℤ pos 1) (chunk_length p))
      ≡ false

  copy_range-copy :
      (copy_range shuffle flight others
        (record p { cache = evict_before p.cache (offset / chunk_length p) })
        len
        offset
        (offset / chunk_length p)
        (quot (pos offset +ℤ pos len -ℤ pos 1) (chunk_length p))).0.0
      ≡ copy_of_read
  unfolding copy_range rounds
  copy_range-copy = rw (serves.chunk_eq, last_chunk, cache-schedule_reads) refl

  bytes-read_range :
      Uncut → (read_range shuffle flight others p len offset).bytes ≡ copy_of_read.bytes
  unfolding read_range
  bytes-read_range uncut = rw (uncut) (ap (λ r. r.bytes) copy_range-copy)

  error-read_range :
      Uncut
      → (read_range shuffle flight others p len offset).error
        ≡ final_error p.size offset copy_of_read
  unfolding read_range
  error-read_range uncut = rw (uncut) (ap (final_error p.size offset) copy_range-copy)

  in_terms :
      (b : Bool)
      → is_cut (pos (length content)) offset len (offset / size) (pos ((offset + len - 1) / size))
        ≡ b
      → is_cut p.size offset len
          (offset / chunk_length p)
          (quot (pos offset +ℤ pos len -ℤ pos 1) (chunk_length p))
        ≡ b
  in_terms b h =
      subst
        (λ k. is_cut p.size offset len (offset / k) (quot (pos offset +ℤ pos len -ℤ pos 1) k) ≡ b)
        (sym (ap pos_part serves.chunk_eq))
        (subst (λ z. is_cut p.size offset len (offset / size) z ≡ b) (sym last_chunk)
          (subst (λ z. is_cut z offset len (offset / size) (pos ((offset + len - 1) / size)) ≡ b)
            (sym serves.size_eq) h))

  inside_size : offset + len ≤ length content ⊎ offset / size < (offset + len - 1) / size → Uncut
  unfolding is_cut
  inside_size (inl h) = in_terms false (
      within_content (length content) offset len (offset / size) ((offset + len - 1) / size) small
        h)
  inside_size (inr h) = in_terms false (
      several_chunks (pos (length content)) offset len (offset / size) ((offset + len - 1) / size)
        h)

  abbrev Spans : Type 0
  Spans = offset + len ≤ length content ⊎ offset / size < (offset + len - 1) / size

  opened :
      read_at shuffle flight others p len (pos offset)
      ≡ read_range shuffle flight others p len offset
  opened =
      open_read shuffle flight others p len offset
        (not_refused p len offset (length content) serves.is_open serves.size_eq some_asked inside)

  reply_of_copy :
      Spans
      → copy_of_read.error ≡ none
      → ((read_at shuffle flight others p len (pos offset)).bytes ≡ take len (drop offset content))
        × ((read_at shuffle flight others p len (pos offset)).error
            ≡ (if leb (length content) (offset + len) then some eof else none))
  reply_of_copy spans fine =
      let u = inside_size spans in
      let b = copy_of_read-Copies.whole fine in
      (
        ap (λ r. r.bytes) opened ∙ bytes-read_range u ∙ b,
        ap (λ r. r.error) opened
            ∙ error-read_range u
            ∙ end_error content p.size offset len copy_of_read serves.size_eq inside small fine b,
      )

  -- An open prefetcher whose cache is sound for a content of known size, an honest reader, and
  -- honest steps of other goroutines meanwhile: if `ReadAt` on a range that starts inside the
  -- content, ends below 2 ^ 63, is not empty, and either ends inside the content or spans several
  -- chunks, returns no error or `io.EOF`, its bytes are the content's from the offset on, at most
  -- `len`, and the error is `io.EOF` exactly when the range reaches the end.
  pub read_at-content :
      offset + len ≤ length content ⊎ offset / size < (offset + len - 1) / size
      → accepted (read_at shuffle flight others p len (pos offset)).error ≡ true
      → ((read_at shuffle flight others p len (pos offset)).bytes ≡ take len (drop offset content))
        × ((read_at shuffle flight others p len (pos offset)).error
            ≡ (if leb (length content) (offset + len) then some eof else none))
  read_at-content spans fine = reply_of_copy spans (
      fine_copy p.size offset copy_of_read
        (copy_chunks-ne-eof shuffle (pos_part p.config.max_retries) flight others
          (suc ((offset + len - 1) / size) - offset / size) (offset / size) (offset % size) len
          (evict_before p.cache (offset / size)))
        (sym
            (ap (λ r. accepted r.error) opened ∙ ap accepted (error-read_range (inside_size spans)))
          ∙ fine))

  -- An open prefetcher whose cache is sound for a content of known size, an honest reader, and
  -- honest steps of other goroutines meanwhile: with a free slot and one successful attempt for each
  -- chunk, `ReadAt` on a range that starts inside the content, ends below 2 ^ 63, is not empty, and
  -- either ends inside the content or spans several chunks, returns the content's bytes from the
  -- offset on, at most `len`, with `io.EOF` if the range reaches the end and no error otherwise.
  pub read_at-prompt :
      offset + len ≤ length content ⊎ offset / size < (offset + len - 1) / size
      → ((index : ℕ) → IsPrompt (pos_part p.config.max_retries) (flight index))
      → ((read_at shuffle flight others p len (pos offset)).bytes ≡ take len (drop offset content))
        × ((read_at shuffle flight others p len (pos offset)).error
            ≡ (if leb (length content) (offset + len) then some eof else none))
  read_at-prompt spans prompt = reply_of_copy spans (
      copy_chunks-no_error shuffle (pos_part p.config.max_retries) flight others prompt
        (suc ((offset + len - 1) / size) - offset / size) (offset / size) (offset % size) len
        (evict_before p.cache (offset / size)))

  -- A range that starts inside the content, is not empty, ends below 2 ^ 63 and passes the end of
  -- the content within one chunk is answered by `io.EOF` and no bytes, by an open prefetcher whose
  -- cache is sound for the content, with an honest reader and honest steps of other goroutines.
  pub read_at-cut :
      length content < offset + len
      → offset / size ≡ (offset + len - 1) / size
      → ((read_at shuffle flight others p len (pos offset)).bytes ≡ [])
        × ((read_at shuffle flight others p len (pos offset)).error ≡ some eof)
  unfolding read_range
  read_at-cut passes one =
      let cut = in_terms true (
        cut_within (length content) offset len (offset / size) ((offset + len - 1) / size) small
          passes one (omega (arith, inside))) in
      (ap (λ r. r.bytes) opened ∙ rw cut refl, ap (λ r. r.error) opened ∙ rw cut refl)
