-- ===== src/Prefetch/Reader/Sound.antt =====
-- Every chunk that the cache holds is the content's chunk of that index, whoever stored it.
use container_builder_shim.Common.{
  ℕ, zero, suc, ◌-◌, ◌≡◌, refl, subst, List, [], ◌∷◌, arith, length, take, true, not, ◌&&◌, Option,
  none, some, All, ltb, leb, Bool-cases, Option-cases, inl, inr, nat_eq,
}
use container_builder_shim.Common.Bytes.{Bytes}
use container_builder_shim.Common.Dict.{Dict, lookup}
use container_builder_shim.Prefetch.Cache.{
  Chunk, ChunkCache, has_chunk, get_chunk, oldest_first, evict_oldest, store_chunk, add_chunk,
  evict_before,
}
use container_builder_shim.Prefetch.Cache.Invariant.{
  All-lookup, All-insert, All-delete_first, All-delete_below,
}
use mathlib.Core.Option.{some-injective}
use container_builder_shim.Prefetch.Cache.Recent.{victims, chunk_map-evict_oldest}
use container_builder_shim.Prefetch.Reader.{
  Error, Slot, acquired, done, timed_out, Answer, answered, expired, Flight, Result, ok, ChunkRead,
  read_chunk_once, accepted, retry_from, read_chunk_with_retries, read_and_store, take_slot,
  fetch_chunk, get_or_fetch, read_ahead, Background, fetches, reads_ahead, evicts, in_background,
}
use container_builder_shim.Prefetch.Reader.Slice.{chunk_of}

ok-injective : {a b : Chunk} → ◌≡◌ {A = Result Chunk} (ok a) (ok b) → a ≡ b
ok-injective h = cc

module _ (content : Bytes) (size : ℕ) where
  -- `n` bytes of a buffer are the chunk.
  abbrev pub IsRight : ℕ → Bytes → ℕ → Type 0
  IsRight index bytes n =
      (n ≡ length (chunk_of content size index)) × (take n bytes ≡ chunk_of content size index)

  abbrev pub IsSound : Dict ℕ Chunk → Type 0
  IsSound = All (λ (index, ch). IsRight index ch.bytes ch.size)

  -- The contract of the reader: a read that ends with no error or with `io.EOF` has filled the
  -- buffer with the chunk, as far as the content goes.
  abbrev pub IsHonest : ℕ → Flight → Type 0
  IsHonest index f =
      (attempt : ℕ) (bytes : Bytes) (n : ℕ) (e : Option Error)
      → f.answer attempt ≡ answered bytes n e
      → accepted e ≡ true
      → IsRight index bytes n

  abbrev pub IsHonestStep : Background → Type 0
  IsHonestStep (fetches index f) = IsHonest index f
  IsHonestStep (reads_ahead index f) = IsHonest index f
  IsHonestStep (evicts index) = Unit

  abbrev IsRightRead : ℕ → ChunkRead → Type 0
  IsRightRead index (bytes, n, e) = accepted e ≡ true → IsRight index bytes n

  once-right :
      (index : ℕ) (a : Answer)
      → ((bytes : Bytes) (n : ℕ) (e : Option Error)
          → a ≡ answered bytes n e
          → accepted e ≡ true
          → IsRight index bytes n)
      → IsRightRead index (read_chunk_once a)
  unfolding read_chunk_once
  once-right index (answered bytes n e) h = h bytes n e refl
  once-right index (expired bytes) h = λ bad. absurd (ground arith)

  retry_from-right :
      (index : ℕ) (f : Flight) (left attempt : ℕ) (last : ChunkRead)
      → IsHonest index f
      → (left ≡ 0 → IsRightRead index last)
      → IsRightRead index (retry_from f left attempt last)
  unfolding retry_from
  retry_from-right index f zero attempt last h k = k refl
  retry_from-right index f (suc left) attempt last h k =
      let r = read_chunk_once (f.answer attempt) in
      let right = once-right index (f.answer attempt) (h attempt) in
      elim (Bool-cases (ltb 0 attempt && not (f.wait attempt))) [
        | inl e ↦ rw e (λ bad. absurd (ground arith))
        | inr e ↦ rw e (elim (Bool-cases (accepted r.2)) [
          | inl g ↦ rw g (λ _. right g)
          | inr g ↦ rw g (retry_from-right index f left (suc attempt) r h (λ _. right))
        ])
      ]

  evict_oldest-IsSound :
      (shuffle : Dict ℕ Chunk → Dict ℕ Chunk) (c : ChunkCache)
      → IsSound c.chunk_map
      → IsSound (evict_oldest shuffle c).chunk_map
  evict_oldest-IsSound shuffle c h =
      rw (chunk_map-evict_oldest shuffle c)
        (elim (Bool-cases (leb (length c.chunk_map) (c.max_cache_size - c.evict_count))) [
          | inl e ↦ rw e h
          | inr e ↦ rw e (
              All-delete_first (λ (index, ch). IsRight index ch.bytes ch.size) (victims shuffle c)
                (oldest_first shuffle c.chunk_map) c.chunk_map h)
        ])

  add_chunk-IsSound :
      (shuffle : Dict ℕ Chunk → Dict ℕ Chunk) (now : ℕ) (c : ChunkCache) (ch : Chunk)
      → IsSound c.chunk_map
      → IsRight ch.index ch.bytes ch.size
      → IsSound (add_chunk shuffle now c ch).chunk_map
  unfolding add_chunk
  add_chunk-IsSound shuffle now c ch h r =
      let stored =
        All-insert (λ (index, x). IsRight index x.bytes x.size) ch.index
          (record ch { last_used = now }) c.chunk_map r h in
      elim (Bool-cases (ltb ch.index c.min_index)) [
        | inl e ↦ rw e h
        | inr e ↦
            rw e
              (elim (Bool-cases (ltb c.max_cache_size (length (store_chunk now c ch).chunk_map))) [
                | inl o ↦ rw o (evict_oldest-IsSound shuffle (store_chunk now c ch) stored)
                | inr o ↦ rw o stored
              ])
      ]

  -- A chunk that is found is right, and stamping it leaves its bytes alone.
  get_chunk-IsSound :
      (now : ℕ) (c : ChunkCache) (index : ℕ)
      → IsSound c.chunk_map
      → IsSound (get_chunk now c index).0.chunk_map
        × ((ch : Chunk) → (get_chunk now c index).1 ≡ some ch → IsRight index ch.bytes ch.size)
  unfolding get_chunk
  get_chunk-IsSound now c index h = elim (Option-cases (lookup index c.chunk_map)) [
    | inl e ↦ rw (e, get_chunk) (h, λ ch bad. absurd (ground arith))
    | inr (x, e) ↦
        let right = All-lookup (λ (i, y). IsRight i y.bytes y.size) index c.chunk_map h e in
        rw (e, get_chunk)
          (
            All-insert (λ (i, y). IsRight i y.bytes y.size) index (record x { last_used = now })
                c.chunk_map right h,
            λ ch same.
                subst (λ y. IsRight index y.bytes y.size)
                  (some-injective (record x { last_used = now }) ch same) right,
          )
  ]

  pub evict_before-IsSound :
      (c : ChunkCache) (k : ℕ) → IsSound c.chunk_map → IsSound (evict_before c k).chunk_map
  unfolding evict_before
  evict_before-IsSound c k h = elim (Bool-cases (leb k c.min_index)) [
    | inl e ↦ rw (e, evict_before) h
    | inr e ↦
        rw (e, evict_before) (All-delete_below (λ (i, y). IsRight i y.bytes y.size) k c.chunk_map h)
  ]

  read_chunk_with_retries-right :
      (max_retries : ℕ) (f : Flight) (index : ℕ)
      → IsHonest index f
      → IsRightRead index (read_chunk_with_retries max_retries f)
  unfolding read_chunk_with_retries
  read_chunk_with_retries-right max_retries f index h =
      retry_from-right index f (suc max_retries) 0 ([], 0, none) h (λ bad. absurd (omega arith))

  module _ (shuffle : Dict ℕ Chunk → Dict ℕ Chunk) (max_retries : ℕ) where
    -- The cache stays sound, and a chunk that comes back is right.
    abbrev pub Gives : ℕ → ChunkCache × Result Chunk → Type 0
    Gives index (c, r) =
        IsSound c.chunk_map × ((ch : Chunk) → r ≡ ok ch → IsRight index ch.bytes ch.size)

    read_and_store-Gives :
        (f : Flight) (index : ℕ) (c : ChunkCache)
        → IsHonest index f
        → IsSound c.chunk_map
        → Gives index (read_and_store shuffle max_retries f index c)
    unfolding read_and_store
    read_and_store-Gives f index c h s =
        let r = read_chunk_with_retries max_retries f in
        let right : IsRightRead index r = read_chunk_with_retries-right max_retries f index h in
        elim (Bool-cases (accepted r.2)) [
          | inl e ↦ rw e (
            add_chunk-IsSound shuffle f.now c _ s (right e),
            λ ch same. subst (λ y. IsRight index y.bytes y.size) (ok-injective same) (right e),
          )
          | inr e ↦ rw e (s, λ ch bad. absurd (ground arith))
        ]

    take_slot-Gives :
        (slot : Slot) (f : Flight) (index : ℕ) (c : ChunkCache)
        → IsHonest index f
        → IsSound c.chunk_map
        → Gives index (take_slot shuffle max_retries slot f index c)
    unfolding take_slot
    take_slot-Gives acquired f index c h s = read_and_store-Gives f index c h s
    take_slot-Gives done f index c h s = (s, λ ch bad. absurd (ground arith))
    take_slot-Gives timed_out f index c h s = (s, λ ch bad. absurd (ground arith))

    fetch_chunk-Gives :
        (f : Flight) (index : ℕ) (c : ChunkCache)
        → IsHonest index f
        → IsSound c.chunk_map
        → Gives index (fetch_chunk shuffle max_retries f index c)
    unfolding fetch_chunk
    fetch_chunk-Gives f index c h s =
        let (sound, right) = get_chunk-IsSound f.now c index s in
        elim (Option-cases (get_chunk f.now c index).1) [
          | inl e ↦
              rw (e, fetch_chunk)
                (take_slot-Gives f.slot f index (get_chunk f.now c index).0 h sound)
          | inr (x, e) ↦
              rw (e, fetch_chunk)
                (
                  sound,
                  λ ch same.
                      subst (λ y. IsRight index y.bytes y.size) (ok-injective same) (right x e),
                )
        ]

    pub get_or_fetch-Gives :
        (f : Flight) (index : ℕ) (c : ChunkCache)
        → IsHonest index f
        → IsSound c.chunk_map
        → Gives index (get_or_fetch shuffle max_retries f index c)
    unfolding get_or_fetch
    get_or_fetch-Gives f index c h s =
        let (sound, right) = get_chunk-IsSound f.now c index s in
        elim (Option-cases (get_chunk f.now c index).1) [
          | inl e ↦
              rw (e, get_or_fetch) (fetch_chunk-Gives f index (get_chunk f.now c index).0 h sound)
          | inr (x, e) ↦
              rw (e, get_or_fetch)
                (
                  sound,
                  λ ch same.
                      subst (λ y. IsRight index y.bytes y.size) (ok-injective same) (right x e),
                )
        ]

    read_ahead-IsSound :
        (f : Flight) (index : ℕ) (c : ChunkCache)
        → IsHonest index f
        → IsSound c.chunk_map
        → IsSound (read_ahead shuffle max_retries f index c).chunk_map
    unfolding read_ahead
    read_ahead-IsSound f index c h s =
        let r = read_chunk_once (f.answer 0) in
        let right = once-right index (f.answer 0) (h 0) in
        elim (Bool-cases (has_chunk c index)) [
          | inl e ↦ rw e s
          | inr e ↦ rw e (
              by_slot f.slot _ (elim (Bool-cases (accepted r.2)) [
                | inl a ↦ rw a (add_chunk-IsSound shuffle f.now c _ s (right a))
                | inr a ↦ rw a s
              ]))
        ]
      where
        by_slot :
            (slot : Slot) (d : ChunkCache)
            → IsSound d.chunk_map
            → IsSound (elim slot as (λ _. ChunkCache) [ acquired ↦ d | _ ↦ c ]).chunk_map
        by_slot acquired d k = k
        by_slot done d k = s
        by_slot timed_out d k = s

    -- Fetches, read-ahead and evictions of other goroutines leave a sound cache sound, where the
    -- reader of each step is honest.
    pub in_background-IsSound :
        (bs : List Background) (c : ChunkCache)
        → All IsHonestStep bs
        → IsSound c.chunk_map
        → IsSound (in_background shuffle max_retries c bs).chunk_map
    unfolding in_background
    in_background-IsSound [] c h s = s
    in_background-IsSound (fetches index f ∷ bs) c (h, hs) s =
        in_background-IsSound bs _ hs (get_or_fetch-Gives f index c h s).0
    in_background-IsSound (reads_ahead index f ∷ bs) c (h, hs) s =
        in_background-IsSound bs _ hs (read_ahead-IsSound f index c h s)
    in_background-IsSound (evicts index ∷ bs) c (h, hs) s =
        in_background-IsSound bs _ hs (evict_before-IsSound c index s)
