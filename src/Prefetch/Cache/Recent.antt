-- ===== src/Prefetch/Cache/Recent.antt =====
-- pkg/prefetch/cache.go: which chunks stay, which go, and what the tree keeps.
use mathlib.Core.List.{Permᴰ}
use mathlib.Core.List.Permᴰ
use container_builder_shim.Common.{
  All-Permᴰ, ℕ, zero, suc, ◌+◌, ◌-◌, ◌≤◌, ◌<◌, ◌≡◌, refl, sym, subst, ◌∙◌, Bool, true, false, none,
  some, List, [], ◌∷◌, arith, ltb, leb, if◌then◌else◌, length, All, nat_eq, Bool-cases, inl, inr,
  All-mono, take, drop, ◌==◌,
}
use container_builder_shim.Common.Dict.{
  Dict, lookup, erase, lookup-erase, NodupKeys, insert-NodupKeys, erase-NodupKeys, length-le-erase,
}
use container_builder_shim.Prefetch.Cache.{
  Chunk, ChunkCache, new_chunk_cache, delete_first, values, oldest_first, rebuild_interval_tree,
  evict_oldest, store_chunk, add_chunk, evict_before,
}
use container_builder_shim.Prefetch.Cache.Tree.{IsIndexed, tree_size, tree_size-insert_root}
use container_builder_shim.Prefetch.Cache.Evict.{
  IsAscending, lookup-delete_first, delete_first_gone, oldest_first-Permᴰ, oldest_first-IsAscending,
  length-oldest_first,
}
use container_builder_shim.Prefetch.Cache.Invariant.{
  IsValid, All-lookup, lookup-delete_below, lookup-values,
}

absent_below :
    (k j : ℕ) (m : Dict ℕ Chunk) → All (λ (idx, _). k ≤ idx) m → j < k → lookup j m ≡ none
unfolding lookup
absent_below k j [] h l = refl
absent_below k j ((i, _) ∷ m) (b, h) l = ground (arith, absent_below k j m h l)

-- After `evictBefore` no index below the bound is cached, and every other index is cached as before,
-- also where the bound is behind the window already.
pub lookup-evict_before :
    (c : ChunkCache) (k j : ℕ)
    → IsValid c
    → lookup j (evict_before c k).chunk_map ≡ (if ltb j k then none else lookup j c.chunk_map)
unfolding evict_before
lookup-evict_before c k j v = elim (Bool-cases (leb k c.min_index)) [
  | inl e ↦ rw (e, evict_before) (ground (arith, absent_below c.min_index j c.chunk_map v.above))
  | inr e ↦ rw (e, evict_before) (lookup-delete_below k j c.chunk_map)
]

-- In an ascending list every chunk past the first `n` is at least as recent as each of those.
ascending_drop :
    (n : ℕ) (xs : List Chunk)
    → IsAscending xs
    → All (λ y. All (λ x. x.last_used ≤ y.last_used) (take n xs)) (drop n xs)
unfolding take drop
ascending_drop zero xs a = trivial xs
  where
    trivial : (ys : List Chunk) → All (λ y. All {A = Chunk} (λ x. x.last_used ≤ y.last_used) []) ys
    trivial [] = tt
    trivial (y ∷ ys) = (tt, trivial ys)
ascending_drop (suc n) [] a = tt
ascending_drop (suc n) (x ∷ xs) (h, a) = join (drop n xs) (keep n xs h) (ascending_drop n xs a)
  where
    keep :
        (k : ℕ) (ys : List Chunk)
        → All (λ y. x.last_used ≤ y.last_used) ys
        → All (λ y. x.last_used ≤ y.last_used) (drop k ys)
    keep zero ys h = h
    keep (suc k) [] h = tt
    keep (suc k) (y ∷ ys) h = keep k ys h.1

    join :
        (ys : List Chunk)
        → All (λ y. x.last_used ≤ y.last_used) ys
        → All (λ y. All (λ z. z.last_used ≤ y.last_used) (take n xs)) ys
        → All (λ y. All (λ z. z.last_used ≤ y.last_used) (x ∷ take n xs)) ys
    join [] p q = tt
    join (y ∷ ys) (p, ps) (q, qs) = ((p, q), join ys ps qs)

All-take-drop :
    (P : Chunk → Type 0) (n : ℕ) (xs : List Chunk)
    → All P (take n xs)
    → All P (drop n xs)
    → All P xs
unfolding take drop
All-take-drop P zero xs h k = k
All-take-drop P (suc n) [] h k = tt
All-take-drop P (suc n) (x ∷ xs) h k = (h.0, All-take-drop P n xs h.1 k)

All-take : (P : Chunk → Type 0) (n : ℕ) (xs : List Chunk) → All P xs → All P (take n xs)
unfolding take
All-take P zero xs h = tt
All-take P (suc n) [] h = tt
All-take P (suc n) (x ∷ xs) h = (h.0, All-take P n xs h.1)

All-values-lookup :
    (P : Chunk → Type 0) (k : ℕ) (m : Dict ℕ Chunk) {ch : Chunk}
    → All P (values m)
    → lookup k m ≡ some ch
    → P ch
unfolding values lookup
All-values-lookup P k [] h e = absurd (ground arith)
All-values-lookup P k ((j, w) ∷ m) h e = elim (nat_eq.dec k j) [
  | yes same ↦ subst P (ground arith) h.0
  | no other ↦ All-values-lookup P k m h.1 (ground arith)
]

-- Whether an index is among those of the chunks.
abbrev gone : ℕ → List Chunk → Bool
gone k [] = false
gone k (x ∷ xs) = if k == x.index then true else gone k xs

lookup-delete_first-gone :
    (n : ℕ) (chunks : List Chunk) (m : Dict ℕ Chunk) (k : ℕ)
    → lookup k (delete_first n chunks m) ≡ (if gone k (take n chunks) then none else lookup k m)
unfolding delete_first take
lookup-delete_first-gone zero chunks m k = refl
lookup-delete_first-gone (suc n) [] m k = refl
lookup-delete_first-gone (suc n) (c ∷ chunks) m k =
    ground (arith, lookup-delete_first-gone n chunks (erase c.index m) k, lookup-erase k c.index m)

victim-le :
    (xs : List Chunk) (m : Dict ℕ Chunk) (k t : ℕ) (old : Chunk)
    → All (λ x. lookup x.index m ≡ some x) xs
    → All (λ x. x.last_used ≤ t) xs
    → lookup k m ≡ some old
    → gone k xs ≡ true
    → old.last_used ≤ t
victim-le [] m k t old f h e g = absurd (ground arith)
victim-le (x ∷ xs) m k t old (f, fs) (h, hs) e g = elim (nat_eq.dec k x.index) [
  | yes same ↦
      let found : lookup k m ≡ some x = subst (λ i. lookup i m ≡ some x) (sym same) f in
      ground arith
  | no other ↦ victim-le xs m k t old fs hs e (ground arith)
]

module _ (shuffle : Dict ℕ Chunk → Dict ℕ Chunk) (fair : (m : Dict ℕ Chunk) → Permᴰ (shuffle m) m)
    (m : Dict ℕ Chunk) (n : ℕ) (found : All (λ x. lookup x.index m ≡ some x) (values m)) where
  kept-recent :
      (j : ℕ) (ch : Chunk)
      → ch.index ≡ j
      → lookup j (delete_first n (oldest_first shuffle m) m) ≡ some ch
      → All (λ x. x.last_used ≤ ch.last_used) (take n (oldest_first shuffle m))
  kept-recent j ch same kept =
      All-values-lookup P j m everywhere before (
        subst (λ i. lookup i (delete_first n (oldest_first shuffle m) m) ≡ some ch) (sym same) kept)
    where
      chunks : List Chunk
      chunks = oldest_first shuffle m

      P : Chunk → Type 0
      P x =
          lookup x.index (delete_first n chunks m) ≡ some x
          → All (λ y. y.last_used ≤ x.last_used) (take n chunks)

      before : lookup j m ≡ some ch
      before = lookup-delete_first n chunks m j kept

      everywhere : All P (values m)
      everywhere = All-Permᴰ P (oldest_first-Permᴰ shuffle fair m) (
          All-take-drop P n chunks
            (All-mono _ P (λ x none_left still. absurd (ground arith)) (take n chunks)
              (delete_first_gone n chunks m))
            (All-mono _ P (λ x recent still. recent) (drop n chunks)
              (ascending_drop n chunks (oldest_first-IsAscending shuffle fair m))))

  evicted-le-kept :
      (k j : ℕ) (old ch : Chunk)
      → ch.index ≡ j
      → lookup k m ≡ some old
      → lookup k (delete_first n (oldest_first shuffle m) m) ≡ none
      → lookup j (delete_first n (oldest_first shuffle m) m) ≡ some ch
      → old.last_used ≤ ch.last_used
  evicted-le-kept k j old ch same was lost kept =
      victim-le (take n (oldest_first shuffle m)) m k ch.last_used old
        (All-take _ n _ (All-Permᴰ _ (Permᴰ.symm (oldest_first-Permᴰ shuffle fair m)) found))
        (kept-recent j ch same kept) was
        (ground (arith, lookup-delete_first-gone n (oldest_first shuffle m) m k))

deleted-le :
    (n : ℕ) (chunks : List Chunk) (m : Dict ℕ Chunk)
    → NodupKeys m
    → length m ≤ length (delete_first n chunks m) + n
unfolding delete_first
deleted-le zero chunks m u = omega arith
deleted-le (suc n) [] m u = omega arith
deleted-le (suc n) (ch ∷ chunks) m u = omega (
  arith,
  length-le-erase ch.index m u,
  deleted-le n chunks (erase ch.index m) (erase-NodupKeys ch.index m u),
)

module _ (shuffle : Dict ℕ Chunk → Dict ℕ Chunk) where
  abbrev pub victims : ChunkCache → ℕ
  victims c =
      let chunks = oldest_first shuffle c.chunk_map in
      if ltb (length chunks) c.evict_count then length chunks else c.evict_count

  pub chunk_map-evict_oldest :
      (c : ChunkCache)
      → (evict_oldest shuffle c).chunk_map ≡ (
          if leb (length c.chunk_map) (c.max_cache_size - c.evict_count)
          then c.chunk_map
          else delete_first (victims c) (oldest_first shuffle c.chunk_map) c.chunk_map)
  unfolding evict_oldest rebuild_interval_tree
  chunk_map-evict_oldest c = ground arith

module _ (shuffle : Dict ℕ Chunk → Dict ℕ Chunk)
    (fair : (m : Dict ℕ Chunk) → Permᴰ (shuffle m) m) where
  -- `evictOldest` evicts by recency, in whatever order the map is visited: where each index stands
  -- once in the map, over a chunk of that index, no chunk that goes was used later than one that
  -- stays.
  pub evict_oldest_recency :
      (c : ChunkCache) (k j : ℕ) (old ch : Chunk)
      → NodupKeys c.chunk_map
      → IsIndexed c.chunk_map
      → lookup k c.chunk_map ≡ some old
      → lookup k (evict_oldest shuffle c).chunk_map ≡ none
      → lookup j (evict_oldest shuffle c).chunk_map ≡ some ch
      → old.last_used ≤ ch.last_used
  evict_oldest_recency c k j old ch u x was lost kept =
      elim (Bool-cases (leb (length c.chunk_map) (c.max_cache_size - c.evict_count))) [
        | inl e ↦ absurd (ground (arith, chunk_map-evict_oldest shuffle c))
        | inr e ↦
            let m' =
              delete_first (victims shuffle c) (oldest_first shuffle c.chunk_map) c.chunk_map in
            let is_m' : (evict_oldest shuffle c).chunk_map ≡ m' =
              chunk_map-evict_oldest shuffle c ∙ rw e in
            let kept' : lookup j m' ≡ some ch = rw is_m' at kept in
            evicted-le-kept shuffle fair c.chunk_map (victims shuffle c)
              (lookup-values c.chunk_map u x) k j old ch
              (All-lookup (λ (idx, y). y.index ≡ idx) j c.chunk_map x
                (lookup-delete_first (victims shuffle c) (oldest_first shuffle c.chunk_map)
                  c.chunk_map j kept'))
              was (rw is_m' at lost) kept'
      ]

  interval_tree-evict_oldest :
      (c : ChunkCache)
      → NodupKeys c.chunk_map
      → c.max_cache_size ≡ 1024
      → c.evict_count ≡ 102
      → c.max_cache_size < length c.chunk_map
      → (evict_oldest shuffle c).interval_tree ≡ c.interval_tree
  unfolding evict_oldest
  interval_tree-evict_oldest c u e f over = ground (
    arith,
    deleted-le (victims shuffle c) (oldest_first shuffle c.chunk_map) c.chunk_map u,
    length-oldest_first shuffle fair c.chunk_map,
  )

  -- With the constants of `newChunkCache` the tree is never rebuilt: `addChunk` of an index within
  -- the window adds one node to the tree, also where it evicts.
  pub tree_size-add_chunk :
      (now : ℕ) (c : ChunkCache) (ch : Chunk)
      → IsValid c
      → c.max_cache_size ≡ (new_chunk_cache c.chunk_size).max_cache_size
      → c.evict_count ≡ (new_chunk_cache c.chunk_size).evict_count
      → c.min_index ≤ ch.index
      → tree_size (add_chunk shuffle now c ch).interval_tree ≡ suc (tree_size c.interval_tree)
  unfolding add_chunk new_chunk_cache
  tree_size-add_chunk now c ch v e f h =
      let stamped = record ch { last_used = now } in
      let u = insert-NodupKeys ch.index stamped c.chunk_map v.keys in
      let grown = tree_size-insert_root c.interval_tree ch.index stamped in
      ground (arith, interval_tree-evict_oldest (store_chunk now c ch) u e f)
