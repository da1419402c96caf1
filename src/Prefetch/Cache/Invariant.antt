-- ===== src/Prefetch/Cache/Invariant.antt =====
-- pkg/prefetch/cache.go: the invariant of the chunk cache, which every method keeps.
use mathlib.Core.List.{Permᴰ}
use mathlib.Core.List.Permᴰ
use container_builder_shim.Common.{
  All-Permᴰ, ℕ, zero, suc, ◌+◌, ◌-◌, ◌*◌, ◌≤◌, ◌<◌, ◌≡◌, refl, sym, subst, false, none, some, List,
  [], ◌∷◌, arith, ltb, leb, if◌then◌else◌, length, All, nat_eq, Bool-cases, inl, inr, All-mono,
  Option-cases,
}
use container_builder_shim.Common.Dict.{
  Dict, lookup, insert, erase, length-insert-le, length-insert_present, NodupKeys, insert-NodupKeys,
  erase-NodupKeys,
}
use container_builder_shim.Prefetch.Cache.{
  Chunk, ChunkCache, leaf, new_chunk_cache, get_chunk, delete_first, values, oldest_first,
  rebuild_interval_tree, evict_oldest, store_chunk, add_chunk, delete_below, evict_before, clear,
}
use container_builder_shim.Prefetch.Cache.Tree.{
  IsTree, IsIndexed, insert_root-IsTree, rebuild-IsTree,
}
use container_builder_shim.Prefetch.Cache.Evict.{
  delete_first-lt, oldest_first-Permᴰ, length-oldest_first,
}

-- The map has one entry for an index, under the chunk's own index and not below the window, and
-- no more entries than the cache may hold; the tree is a search tree.
pub record IsValid (c : ChunkCache) : Type 0 where
  pub keys : NodupKeys c.chunk_map
  pub indexed : IsIndexed c.chunk_map
  pub above : All (λ (idx, _). c.min_index ≤ idx) c.chunk_map
  pub bounded : length c.chunk_map ≤ c.max_cache_size
  pub evicts : 0 < c.evict_count
  pub tree : IsTree c.interval_tree

module _ (P : ℕ × Chunk → Type 0) where
  pub All-lookup : (k : ℕ) (m : Dict ℕ Chunk) {v : Chunk} → All P m → lookup k m ≡ some v → P (k, v)
  unfolding lookup
  All-lookup k [] h e = absurd (ground arith)
  All-lookup k ((j, w) ∷ m) {v} h e = elim (nat_eq.dec k j) [
    | yes same ↦ subst P (pair j k w v (sym same) (ground arith)) h.0
    | no other ↦ All-lookup k m h.1 (ground arith)
  ]
    where
      pair : (a b : ℕ) (x y : Chunk) → a ≡ b → x ≡ y → ◌≡◌ {A = ℕ × Chunk} (a, x) (b, y)
      pair a b x y p q = λ i. (p i, q i)

  pub All-insert :
      (k : ℕ) (v : Chunk) (m : Dict ℕ Chunk) → P (k, v) → All P m → All P (insert k v m)
  unfolding insert
  All-insert k v [] p h = (p, tt)
  All-insert k v ((j, w) ∷ m) p h = ground (arith, All-insert k v m p h.1)

  pub All-erase : (k : ℕ) (m : Dict ℕ Chunk) → All P m → All P (erase k m)
  unfolding erase
  All-erase k [] h = tt
  All-erase k ((j, w) ∷ m) h = ground (arith, All-erase k m h.1)

  pub All-delete_first :
      (n : ℕ) (chunks : List Chunk) (m : Dict ℕ Chunk) → All P m → All P (delete_first n chunks m)
  unfolding delete_first
  All-delete_first zero chunks m h = h
  All-delete_first (suc n) [] m h = h
  All-delete_first (suc n) (ch ∷ chunks) m h =
      All-delete_first n chunks (erase ch.index m) (All-erase ch.index m h)

  pub All-delete_below : (k : ℕ) (m : Dict ℕ Chunk) → All P m → All P (delete_below k m)
  unfolding delete_below
  All-delete_below k [] h = tt
  All-delete_below k ((j, w) ∷ m) h = ground (arith, All-delete_below k m h.1)

delete_first-NodupKeys :
    (n : ℕ) (chunks : List Chunk) (m : Dict ℕ Chunk)
    → NodupKeys m
    → NodupKeys (delete_first n chunks m)
unfolding delete_first
delete_first-NodupKeys zero chunks m h = h
delete_first-NodupKeys (suc n) [] m h = h
delete_first-NodupKeys (suc n) (ch ∷ chunks) m h =
    delete_first-NodupKeys n chunks (erase ch.index m) (erase-NodupKeys ch.index m h)

-- Only the indices below the bound go.
pub lookup-delete_below :
    (k j : ℕ) (m : Dict ℕ Chunk)
    → lookup j (delete_below k m) ≡ (if ltb j k then none else lookup j m)
unfolding delete_below lookup
lookup-delete_below k j [] = ground arith
lookup-delete_below k j ((i, w) ∷ m) = ground (arith, lookup-delete_below k j m)

delete_below-NodupKeys : (k : ℕ) (m : Dict ℕ Chunk) → NodupKeys m → NodupKeys (delete_below k m)
unfolding delete_below
delete_below-NodupKeys k [] h = tt
delete_below-NodupKeys k ((j, w) ∷ m) h =
    ground (arith, delete_below-NodupKeys k m h.1, lookup-delete_below k j m)

delete_below-above : (k : ℕ) (m : Dict ℕ Chunk) → All (λ (idx, _). k ≤ idx) (delete_below k m)
unfolding delete_below
delete_below-above k [] = tt
delete_below-above k ((j, w) ∷ m) = elim (Bool-cases (ltb j k)) [
  | inl e ↦ rw e (delete_below-above k m)
  | inr e ↦ rw e (ground arith, delete_below-above k m)
]

delete_below-le : (k : ℕ) (m : Dict ℕ Chunk) → length (delete_below k m) ≤ length m
unfolding delete_below
delete_below-le k [] = omega arith
delete_below-le k ((j, w) ∷ m) = ground (arith, delete_below-le k m)

-- A new cache is valid.
pub new_chunk_cache-IsValid : (chunk_size : ℕ) → IsValid (new_chunk_cache chunk_size)
unfolding new_chunk_cache
new_chunk_cache-IsValid chunk_size = record {
  keys = tt;
  indexed = tt;
  above = tt;
  bounded = omega arith;
  evicts = omega arith;
  tree = tt;
}

-- `evictBefore` keeps the invariant.
pub evict_before-IsValid : (c : ChunkCache) (k : ℕ) → IsValid c → IsValid (evict_before c k)
unfolding evict_before
evict_before-IsValid c k v = elim (Bool-cases (leb k c.min_index)) [
  | inl e ↦ rw (e, evict_before) v
  | inr e ↦
      rw (e, evict_before)
        (record {
          keys = delete_below-NodupKeys k c.chunk_map v.keys;
          indexed = All-delete_below (λ (idx, ch). ch.index ≡ idx) k c.chunk_map v.indexed;
          above = delete_below-above k c.chunk_map;
          bounded = omega (arith, delete_below-le k c.chunk_map, v.bounded);
          evicts = v.evicts;
          tree = v.tree;
        })
]

pub clear-IsValid : (c : ChunkCache) → IsValid c → IsValid (clear c)
unfolding clear
clear-IsValid c v = record {
  keys = tt;
  indexed = tt;
  above = tt;
  bounded = omega arith;
  evicts = v.evicts;
  tree = tt;
}

-- Each chunk of the map is found under its index.
pub lookup-values :
    (m : Dict ℕ Chunk)
    → NodupKeys m
    → IsIndexed m
    → All (λ ch. lookup ch.index m ≡ some ch) (values m)
unfolding values lookup
lookup-values [] u h = tt
lookup-values ((k, ch) ∷ m) (fresh, u) (e, h) = (
  ground arith,
  All-mono (λ x. lookup x.index m ≡ some x) _ (λ x found. ground arith) (values m)
      (lookup-values m u h),
)

-- The invariant without its bound, for the moment between an insertion and the eviction.
record IsStored (c : ChunkCache) : Type 0 where
  keys : NodupKeys c.chunk_map
  indexed : IsIndexed c.chunk_map
  above : All (λ (idx, _). c.min_index ≤ idx) c.chunk_map
  evicts : 0 < c.evict_count
  tree : IsTree c.interval_tree

store_chunk-IsStored :
    (now : ℕ) (c : ChunkCache) (ch : Chunk)
    → IsValid c
    → c.min_index ≤ ch.index
    → IsStored (store_chunk now c ch)
unfolding store_chunk
store_chunk-IsStored now c ch v h = record {
  keys = insert-NodupKeys ch.index _ c.chunk_map v.keys;
  indexed = All-insert (λ (idx, x). x.index ≡ idx) ch.index _ c.chunk_map refl v.indexed;
  above = All-insert (λ (idx, _). c.min_index ≤ idx) ch.index _ c.chunk_map h v.above;
  evicts = v.evicts;
  tree = insert_root-IsTree c.interval_tree (record ch { last_used = now }) v.tree;
}

store_chunk-le :
    (now : ℕ) (c : ChunkCache) (ch : Chunk)
    → IsValid c
    → length (store_chunk now c ch).chunk_map ≤ c.max_cache_size + 1
unfolding store_chunk
store_chunk-le now c ch v =
    omega (arith, v.bounded, length-insert-le ch.index (record ch { last_used = now }) c.chunk_map)

delete_oldest-lt :
    (n : ℕ) (chunks : List Chunk) (m : Dict ℕ Chunk)
    → 0 < n
    → 0 < length chunks
    → All (λ ch. lookup ch.index m ≡ some ch) chunks
    → length (delete_first n chunks m) + 1 ≤ length m
delete_oldest-lt zero chunks m h k l = absurd (omega arith)
delete_oldest-lt (suc n) [] m h k l = absurd (omega arith)
delete_oldest-lt (suc n) (ch ∷ chunks) m h k (l, _) = delete_first-lt n ch chunks m l

module _ (shuffle : Dict ℕ Chunk → Dict ℕ Chunk)
    (fair : (m : Dict ℕ Chunk) → Permᴰ (shuffle m) m) where
  deleted-lt :
      (n : ℕ) (c : ChunkCache)
      → IsStored c
      → 0 < n
      → 0 < length c.chunk_map
      → length (delete_first n (oldest_first shuffle c.chunk_map) c.chunk_map) + 1
        ≤ length c.chunk_map
  deleted-lt n c v h k =
      delete_oldest-lt n _ c.chunk_map h
        (omega (arith, length-oldest_first shuffle fair c.chunk_map))
        (All-Permᴰ _ (Permᴰ.symm (oldest_first-Permᴰ shuffle fair c.chunk_map))
          (lookup-values c.chunk_map v.keys v.indexed))

  evicted-IsValid :
      (n : ℕ) (c : ChunkCache)
      → IsStored c
      → 0 < n
      → c.max_cache_size < length c.chunk_map
      → length c.chunk_map ≤ c.max_cache_size + 1
      → IsValid
          (record c { chunk_map = delete_first n (oldest_first shuffle c.chunk_map) c.chunk_map })
  evicted-IsValid n c v h over near = record {
    keys = delete_first-NodupKeys n _ c.chunk_map v.keys;
    indexed = All-delete_first (λ (idx, ch). ch.index ≡ idx) n _ c.chunk_map v.indexed;
    above = All-delete_first (λ (idx, _). c.min_index ≤ idx) n _ c.chunk_map v.above;
    bounded = omega (arith, deleted-lt n c v h);
    evicts = v.evicts;
    tree = v.tree;
  }

  rebuild_interval_tree-IsValid :
      (c : ChunkCache) → IsValid c → IsValid (rebuild_interval_tree shuffle c)
  unfolding rebuild_interval_tree
  rebuild_interval_tree-IsValid c v = record {
    keys = v.keys;
    indexed = v.indexed;
    above = v.above;
    bounded = v.bounded;
    evicts = v.evicts;
    tree =
        rebuild-IsTree (shuffle c.chunk_map) leaf
          (All-Permᴰ (λ (idx, ch). ch.index ≡ idx) (Permᴰ.symm (fair c.chunk_map)) v.indexed) tt;
  }

  evict_oldest-IsValid :
      (c : ChunkCache)
      → IsStored c
      → c.max_cache_size < length c.chunk_map
      → length c.chunk_map ≤ c.max_cache_size + 1
      → IsValid (evict_oldest shuffle c)
  unfolding evict_oldest
  evict_oldest-IsValid c v over near =
      let chunks = oldest_first shuffle c.chunk_map in
      let n = if ltb (length chunks) c.evict_count then length chunks else c.evict_count in
      let positive : 0 < n =
        ground (arith, length-oldest_first shuffle fair c.chunk_map, v.evicts) in
      let kept = evicted-IsValid n c v positive over near in
      let big : leb (length c.chunk_map) (c.max_cache_size - c.evict_count) ≡ false =
        ground arith in
      rw big
        (elim (Bool-cases (ltb (2 * length (delete_first n chunks c.chunk_map)) c.max_cache_size)) [
          | inl e ↦ rw e (rebuild_interval_tree-IsValid _ kept)
          | inr e ↦ rw e kept
        ])

  -- `addChunk` keeps the invariant, whatever the order in which the map is visited: the cache never
  -- holds more chunks than its maximum, and none below the window.
  pub add_chunk-IsValid :
      (now : ℕ) (c : ChunkCache) (ch : Chunk) → IsValid c → IsValid (add_chunk shuffle now c ch)
  unfolding add_chunk
  add_chunk-IsValid now c ch v =
      let stored = store_chunk now c ch in
      elim (Bool-cases (ltb ch.index c.min_index)) [
        | inl e ↦ rw e v
        | inr e ↦ rw e (elim (Bool-cases (ltb c.max_cache_size (length stored.chunk_map))) [
          | inl o ↦ rw o (
              evict_oldest-IsValid stored (store_chunk-IsStored now c ch v (ground arith))
                (ground arith) (store_chunk-le now c ch v))
          | inr o ↦ rw o (
              let s = store_chunk-IsStored now c ch v (ground arith) in
              record {
                keys = s.keys;
                indexed = s.indexed;
                above = s.above;
                bounded = ground arith;
                evicts = s.evicts;
                tree = s.tree;
              })
        ])
      ]

-- A hit changes only the chunk's time stamp, so `getChunk` keeps the invariant.
pub get_chunk-IsValid :
    (now : ℕ) (c : ChunkCache) (index : ℕ) → IsValid c → IsValid (get_chunk now c index).0
unfolding get_chunk
get_chunk-IsValid now c index v = elim (Option-cases (lookup index c.chunk_map)) [
  | inl e ↦ rw (e, get_chunk) v
  | inr (ch, e) ↦
      let used = record ch { last_used = now } in
      rw (e, get_chunk)
        (record {
          keys = insert-NodupKeys index used c.chunk_map v.keys;
          indexed =
              All-insert (λ (idx, x). x.index ≡ idx) index used c.chunk_map
                (All-lookup (λ (idx, x). x.index ≡ idx) index c.chunk_map v.indexed e) v.indexed;
          above =
              All-insert (λ (idx, _). c.min_index ≤ idx) index used c.chunk_map
                (All-lookup (λ (idx, _). c.min_index ≤ idx) index c.chunk_map v.above e) v.above;
          bounded = omega (arith, length-insert_present index used ch c.chunk_map e, v.bounded);
          evicts = v.evicts;
          tree = v.tree;
        })
]
