-- ===== src/Prefetch/Cache.antt =====
-- pkg/prefetch/cache.go: `chunkCache`, its chunk map and its interval tree.
-- Indices are not negative: `ReadAt` refuses a negative offset before the cache is used. A node of
-- the tree is inserted with `start == end`, and its `chunks` map is an association list. The
-- mutex makes each method one step; `now` is what `time.Now()` returns. `shuffle` is the order in
-- which Go's `range` visits the map.
pub mod Tree
pub mod Evict
pub mod Invariant
pub mod Recent
use container_builder_shim.Common.{
  ℕ, zero, suc, ◌+◌, ◌-◌, ◌*◌, ◌/◌, Bool, true, false, not, ◌&&◌, ◌||◌, Option, none, some, List,
  [], ◌∷◌, ◌++◌, map, ltb, leb, if◌then◌else◌, length, nat_eq,
}
use container_builder_shim.Common.Dict.{Dict, lookup, insert, erase}
use container_builder_shim.Common.Bytes.{Bytes}

pub record Chunk : Type 0 where
  pub index : ℕ
  pub bytes : Bytes
  pub size : ℕ
  pub last_used : ℕ

-- `*intervalNode`, where `leaf` is nil.
pub data IntervalNode : Type 0 where
  leaf : IntervalNode
  node : ℕ → ℕ → Dict ℕ Chunk → IntervalNode → IntervalNode → ℕ → IntervalNode

pub record ChunkCache : Type 0 where
  pub chunk_size : ℕ
  pub interval_tree : IntervalNode
  pub chunk_map : Dict ℕ Chunk
  pub max_cache_size : ℕ
  pub evict_count : ℕ
  pub min_index : ℕ

unfoldable pub new_chunk_cache : ℕ → ChunkCache
new_chunk_cache chunk_size =
    let max_cache_size : ℕ = 1024 in
    record {
      chunk_size = chunk_size;
      interval_tree = leaf;
      chunk_map = [];
      max_cache_size = max_cache_size;
      evict_count = max_cache_size / 10;
      min_index = 0;
    }

unfoldable pub has_chunk : ChunkCache → ℕ → Bool
has_chunk c index = elim (lookup index c.chunk_map) [ none ↦ false | some _ ↦ true ]

-- A hit stamps the chunk.
unfoldable pub get_chunk : ℕ → ChunkCache → ℕ → ChunkCache × Option Chunk
get_chunk now c index = elim (lookup index c.chunk_map) [
  | none ↦ (c, none)
  | some ch ↦
      let used = record ch { last_used = now } in
      (record c { chunk_map = insert index used c.chunk_map }, some used)
]

-- `!(end < node.start || start > node.end)`
abbrev pub overlaps : ℕ → ℕ → ℕ → ℕ → Bool
overlaps start end node_start node_end = not (ltb end node_start || ltb node_end start)

-- `insertInterval` at a node, and `insertChild` at a child that may be nil.
unfoldable pub insert_interval : IntervalNode → ℕ → ℕ → Chunk → IntervalNode
insert_interval leaf start end ch = node start end ((ch.index, ch) ∷ []) leaf leaf end
insert_interval (node s e chunks left right most) start end ch =
    let l = insert_interval left start end ch in
    let r = insert_interval right start end ch in
    let most' = if ltb most end then end else most in
    let chunks' = if overlaps start end s e then insert ch.index ch chunks else chunks in
    if leb start s then node s e chunks' l right most' else node s e chunks' left r most'

-- A chunk enters the tree of the cache.
unfoldable pub insert_root : IntervalNode → ℕ → Chunk → IntervalNode
insert_root leaf idx ch = node idx idx ((idx, ch) ∷ []) leaf leaf idx
insert_root (node s e chunks left right most) idx ch =
    insert_interval (node s e chunks left right most) idx idx ch

-- The loop over one node's chunks.
unfoldable pub matching : ℕ → ℕ → Dict ℕ Chunk → List Chunk
matching start end [] = []
matching start end ((_, ch) ∷ chunks) =
    let rest = matching start end chunks in
    if leb start ch.index && leb ch.index end then ch ∷ rest else rest

unfoldable pub find_overlaps_recursive : IntervalNode → ℕ → ℕ → List Chunk
find_overlaps_recursive leaf start end = []
find_overlaps_recursive (node s e chunks left right most) start end =
    let below = find_overlaps_recursive left start end in
    let here = if overlaps start end s e then matching start end chunks else [] in
    let above = find_overlaps_recursive right start end in
    if ltb most start then [] else below ++ (here ++ (if leb s end then above else []))

unfoldable pub find_overlapping_chunks : ChunkCache → ℕ → ℕ → List Chunk
find_overlapping_chunks c start end = find_overlaps_recursive c.interval_tree start end

-- One round of the insertion sort: the sorted prefix, last element first, takes the next chunk.
unfoldable pub sift : Chunk → List Chunk → List Chunk
sift key [] = key ∷ []
sift key (x ∷ prefix) =
    if ltb key.last_used x.last_used then x ∷ sift key prefix else key ∷ x ∷ prefix

unfoldable pub sort_rounds : List Chunk → List Chunk → List Chunk
sort_rounds prefix [] = prefix
sort_rounds prefix (key ∷ chunks) = sort_rounds (sift key prefix) chunks

-- The sorted array, from its last element back to its first.
unfoldable pub rev_onto : List Chunk → List Chunk → List Chunk
rev_onto acc [] = acc
rev_onto acc (x ∷ xs) = rev_onto (x ∷ acc) xs

unfoldable pub delete_first : ℕ → List Chunk → Dict ℕ Chunk → Dict ℕ Chunk
delete_first zero chunks m = m
delete_first (suc n) [] m = m
delete_first (suc n) (ch ∷ chunks) m = delete_first n chunks (erase ch.index m)

unfoldable pub values : Dict ℕ Chunk → List Chunk
values [] = []
values ((_, ch) ∷ m) = ch ∷ values m

unfoldable pub rebuild : IntervalNode → Dict ℕ Chunk → IntervalNode
rebuild tree [] = tree
rebuild tree ((idx, ch) ∷ chunks) = rebuild (insert_root tree idx ch) chunks

-- `addChunk` up to the test of the size.
unfoldable pub store_chunk : ℕ → ChunkCache → Chunk → ChunkCache
store_chunk now c ch =
    let stamped = record ch { last_used = now } in
    record c {
      chunk_map = insert ch.index stamped c.chunk_map;
      interval_tree = insert_root c.interval_tree ch.index stamped;
    }

module _ (shuffle : Dict ℕ Chunk → Dict ℕ Chunk) where
  unfoldable pub rebuild_interval_tree : ChunkCache → ChunkCache
  rebuild_interval_tree c = record c { interval_tree = rebuild leaf (shuffle c.chunk_map) }

  -- The chunks of the map, collected and sorted, the least recently used first.
  unfoldable pub oldest_first : Dict ℕ Chunk → List Chunk
  oldest_first m = rev_onto [] (sort_rounds [] (values (shuffle m)))

  unfoldable pub evict_oldest : ChunkCache → ChunkCache
  evict_oldest c =
      let chunks = oldest_first c.chunk_map in
      let count = if ltb (length chunks) c.evict_count then length chunks else c.evict_count in
      let evicted = record c { chunk_map = delete_first count chunks c.chunk_map } in
      if leb (length c.chunk_map) (c.max_cache_size - c.evict_count)
      then c
      else if ltb (2 * length evicted.chunk_map) c.max_cache_size
      then rebuild_interval_tree evicted
      else evicted

  unfoldable pub add_chunk : ℕ → ChunkCache → Chunk → ChunkCache
  unfolding store_chunk
  add_chunk now c ch =
      let stored = store_chunk now c ch in
      if ltb ch.index c.min_index
      then c
      else if ltb c.max_cache_size (length stored.chunk_map)
      then evict_oldest stored
      else stored

unfoldable pub delete_below : ℕ → Dict ℕ Chunk → Dict ℕ Chunk
delete_below min_idx [] = []
delete_below min_idx ((idx, ch) ∷ m) =
    let rest = delete_below min_idx m in if ltb idx min_idx then rest else (idx, ch) ∷ rest

unfoldable pub evict_before : ChunkCache → ℕ → ChunkCache
evict_before c min_idx =
    if leb min_idx c.min_index
    then c
    else record c { min_index = min_idx; chunk_map = delete_below min_idx c.chunk_map }

unfoldable pub clear : ChunkCache → ChunkCache
clear c = record c { chunk_map = []; interval_tree = leaf }
