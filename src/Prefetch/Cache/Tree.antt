-- ===== src/Prefetch/Cache/Tree.antt =====
-- pkg/prefetch/cache.go: the interval tree as a search structure.
use container_builder_shim.Common.{
  ℕ, suc, ◌+◌, ◌≤◌, ◌<◌, ◌≡◌, refl, sym, subst, Bool, true, false, ◌&&◌, List, [], ◌∷◌, ◌++◌, arith,
  ltb, leb, if◌then◌else◌, All, filter, nat_eq, Bool-cases, inl, inr, All-append, All-left,
  All-right, All-mono, filter-append, filter_none,
}
use container_builder_shim.Common.Dict.{Dict, insert}
use container_builder_shim.Prefetch.Cache.{
  Chunk, IntervalNode, leaf, node, insert_interval, insert_root, matching, find_overlaps_recursive,
  values, rebuild, overlaps,
}

-- The chunks of a tree from left to right.
abbrev pub contents : IntervalNode → List Chunk
contents leaf = []
contents (node s e chunks left right most) = contents left ++ (values chunks ++ contents right)

abbrev pub tree_size : IntervalNode → ℕ
tree_size leaf = 0
tree_size (node s e chunks left right most) = suc (tree_size left + tree_size right)

abbrev pub in_range : ℕ → ℕ → Chunk → Bool
in_range start end ch = leb start ch.index && leb ch.index end

abbrev pub IsTree : IntervalNode → Type 0
IsTree leaf = Unit
IsTree (node s e chunks left right most) =
    (e ≡ s)
    × All (λ ch. ch.index ≡ s) (values chunks)
    × All (λ ch. s < ch.index) (contents right)
    × All (λ ch. ch.index ≤ most) (contents (node s e chunks left right most))
    × IsTree left
    × IsTree right

matching-eq-filter :
    (a b : ℕ) (chunks : Dict ℕ Chunk) → matching a b chunks ≡ filter (in_range a b) (values chunks)
unfolding matching values
matching-eq-filter a b [] = refl
matching-eq-filter a b ((_, ch) ∷ chunks) = ground (arith, matching-eq-filter a b chunks)

module _ (a b s : ℕ) where
  -- A node's own chunks all have the node's index, so its test decides for them together.
  here-eq-filter :
      (chunks : Dict ℕ Chunk)
      → All (λ ch. ch.index ≡ s) (values chunks)
      → (if overlaps a b s s then matching a b chunks else [])
        ≡ filter (in_range a b) (values chunks)
  here-eq-filter chunks h = elim (Bool-cases (overlaps a b s s)) [
    | inl e ↦ rw e (matching-eq-filter a b chunks)
    | inr e ↦ rw e (
        sym (
          filter_none (in_range a b) (values chunks)
            (All-mono _ _ (λ ch same. ground arith) (values chunks) h)))
  ]

  right-eq-filter :
      (xs ys : List Chunk)
      → All (λ ch. s < ch.index) xs
      → ys ≡ filter (in_range a b) xs
      → (if leb s b then ys else []) ≡ filter (in_range a b) xs
  right-eq-filter xs ys h e = elim (Bool-cases (leb s b)) [
    | inl c ↦ rw c e
    | inr c ↦
        rw c (sym (filter_none (in_range a b) xs (All-mono _ _ (λ ch above. ground arith) xs h)))
  ]

-- In a well-formed tree a query finds exactly the chunks of the tree whose index lies in the range,
-- from left to right.
pub find-eq-filter :
    (t : IntervalNode) (a b : ℕ)
    → IsTree t
    → find_overlaps_recursive t a b ≡ filter (in_range a b) (contents t)
unfolding find_overlaps_recursive
find-eq-filter leaf a b h = refl
find-eq-filter (node s e chunks l r most) a b (same, here, above, bound, tl, tr) =
    let found = find_overlaps_recursive in
    elim (Bool-cases (ltb most a)) [
      | inl c ↦ rw c (
          sym (
            filter_none (in_range a b) (contents (node s e chunks l r most))
              (All-mono _ _ (λ ch le. ground arith) _ bound)))
      | inr c ↦
          rw (c, same, filter-append (in_range a b) (contents l) (values chunks ++ contents r))
            (rw (filter-append (in_range a b) (values chunks) (contents r)) (
              rw (
                find-eq-filter l a b tl,
                here-eq-filter a b s chunks here,
                right-eq-filter a b s (contents r) _ above (find-eq-filter r a b tr),
              )))
    ]

module _ (P : Chunk → Type 0) where
  All-values-insert :
      (k : ℕ) (v : Chunk) (d : Dict ℕ Chunk)
      → All P (values d)
      → P v
      → All P (values (insert k v d))
  unfolding values insert
  All-values-insert k v [] h p = (p, tt)
  All-values-insert k v ((j, w) ∷ d) h p = ground (arith, All-values-insert k v d h.1 p)

  All-contents-insert :
      (t : IntervalNode) (idx : ℕ) (ch : Chunk)
      → All P (contents t)
      → P ch
      → All P (contents (insert_interval t idx idx ch))
  unfolding insert_interval values
  All-contents-insert leaf idx ch h p = (p, tt)
  All-contents-insert (node s e chunks l r most) idx ch h p =
      let hl = All-left P (contents l) _ h in
      let hm = All-left P (values chunks) _ (All-right P (contents l) _ h) in
      let hr = All-right P (values chunks) _ (All-right P (contents l) _ h) in
      let kept = All-values-insert ch.index ch chunks hm p in
      elim (Bool-cases (leb idx s)) [
        | inl c ↦ rw c (
            All-append P _ _ (All-contents-insert l idx ch hl p)
              (All-append P _ _ (pick (overlaps idx idx s e) _ _ kept hm) hr))
        | inr c ↦ rw c (
            All-append P _ _ hl (
              All-append P _ _ (pick (overlaps idx idx s e) _ _ kept hm)
                (All-contents-insert r idx ch hr p)))
      ]
    where
      pick :
          (b : Bool) (xs ys : Dict ℕ Chunk)
          → All P (values xs)
          → All P (values ys)
          → All P (values (if b then xs else ys))
      pick true xs ys h k = h
      pick false xs ys h k = k

here-insert :
    (s e : ℕ) (chunks : Dict ℕ Chunk) (ch : Chunk)
    → e ≡ s
    → All (λ c. c.index ≡ s) (values chunks)
    → All
        (λ c. c.index ≡ s)
        (values (if overlaps ch.index ch.index s e then insert ch.index ch chunks else chunks))
here-insert s e chunks ch same h = elim (Bool-cases (overlaps ch.index ch.index s e)) [
  | inl o ↦ rw o (All-values-insert (λ c. c.index ≡ s) ch.index ch chunks h (ground arith))
  | inr o ↦ rw o h
]

-- Inserting a chunk under its index keeps the tree well-formed.
pub insert_interval-IsTree :
    (t : IntervalNode) (ch : Chunk) → IsTree t → IsTree (insert_interval t ch.index ch.index ch)
unfolding insert_interval values
insert_interval-IsTree leaf ch h = (refl, (refl, tt), tt, (omega arith, tt), tt, tt)
insert_interval-IsTree (node s e chunks l r most) ch (same, here, above, bound, tl, tr) =
    let most' = if ltb most ch.index then ch.index else most in
    let wide =
      All-mono (λ c. c.index ≤ most) (λ c. c.index ≤ most') (λ c h. ground arith)
        (contents (node s e chunks l r most)) bound in
    let bound' =
      All-contents-insert (λ c. c.index ≤ most') (node s e chunks l r most) ch.index ch wide
        (ground arith) in
    let here' = here-insert s e chunks ch same here in
    elim (Bool-cases (leb ch.index s)) [
      | inl c ↦ rw c (same, here', above, rw c at bound', insert_interval-IsTree l ch tl, tr)
      | inr c ↦ rw c (
        same,
        here',
        All-contents-insert (λ x. s < x.index) r ch.index ch above (ground arith),
        rw c at bound',
        tl,
        insert_interval-IsTree r ch tr,
      )
    ]

-- Every insertion adds one node, also for an index that the tree holds already.
pub tree_size-insert_interval :
    (t : IntervalNode) (idx : ℕ) (ch : Chunk)
    → tree_size (insert_interval t idx idx ch) ≡ suc (tree_size t)
unfolding insert_interval
tree_size-insert_interval leaf idx ch = omega arith
tree_size-insert_interval (node s e chunks l r most) idx ch =
    ground (arith, tree_size-insert_interval l idx ch, tree_size-insert_interval r idx ch)

pub insert_root-IsTree :
    (t : IntervalNode) (ch : Chunk) → IsTree t → IsTree (insert_root t ch.index ch)
unfolding insert_root values
insert_root-IsTree leaf ch h = (refl, (refl, tt), tt, (omega arith, tt), tt, tt)
insert_root-IsTree (node s e chunks l r most) ch h =
    insert_interval-IsTree (node s e chunks l r most) ch h

pub tree_size-insert_root :
    (t : IntervalNode) (idx : ℕ) (ch : Chunk) → tree_size (insert_root t idx ch) ≡ suc (tree_size t)
unfolding insert_root
tree_size-insert_root leaf idx ch = omega arith
tree_size-insert_root (node s e chunks l r most) idx ch =
    tree_size-insert_interval (node s e chunks l r most) idx ch

-- A map whose chunks stand under their own indices.
abbrev pub IsIndexed : Dict ℕ Chunk → Type 0
IsIndexed = All (λ (idx, ch). ch.index ≡ idx)

pub rebuild-IsTree :
    (m : Dict ℕ Chunk) (t : IntervalNode) → IsIndexed m → IsTree t → IsTree (rebuild t m)
unfolding rebuild
rebuild-IsTree [] t h k = k
rebuild-IsTree ((idx, ch) ∷ m) t (e, h) k =
    rebuild-IsTree m (insert_root t idx ch) h
      (subst (λ i. IsTree (insert_root t i ch)) e (insert_root-IsTree t ch k))
