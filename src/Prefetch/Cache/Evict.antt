-- ===== src/Prefetch/Cache/Evict.antt =====
-- pkg/prefetch/cache.go: what `evictOldest` sorts and deletes.
use mathlib.Core.List.{Permᴰ}
use mathlib.Core.List.Permᴰ
use container_builder_shim.Common.{
  All-Permᴰ, ℕ, zero, suc, ◌+◌, ◌≤◌, ◌≡◌, refl, ◌∙◌, ap, none, some, List, [], ◌∷◌, ◌++◌, arith,
  map, ltb, ltb→lt, length, All, nat_eq, Bool-cases, inl, inr, All-mono, take,
}
use container_builder_shim.Common.Dict.{
  Dict, lookup, erase, lookup-erase, length-erase-le, length-erase_present,
}
use container_builder_shim.Prefetch.Cache.{
  Chunk, sift, sort_rounds, rev_onto, delete_first, values, oldest_first,
}

sift-Permᴰ : (key : Chunk) (xs : List Chunk) → Permᴰ (sift key xs) (key ∷ xs)
unfolding sift
sift-Permᴰ key [] = Permᴰ.refl (key ∷ [])
sift-Permᴰ key (x ∷ xs) = elim (Bool-cases (ltb key.last_used x.last_used)) [
  | inl c ↦ rw c (Permᴰ.trans (Permᴰ.cons refl (sift-Permᴰ key xs)) (Permᴰ.swap refl refl))
  | inr c ↦ rw c (Permᴰ.refl (key ∷ x ∷ xs))
]

sort_rounds-Permᴰ : (chunks xs : List Chunk) → Permᴰ (sort_rounds xs chunks) (xs ++ chunks)
unfolding sort_rounds
sort_rounds-Permᴰ [] xs = Permᴰ.symm (Permᴰ.append-nil xs)
sort_rounds-Permᴰ (key ∷ chunks) xs = Permᴰ.trans (sort_rounds-Permᴰ chunks (sift key xs)) (
    Permᴰ.trans (Permᴰ.append_right chunks (sift-Permᴰ key xs))
      (Permᴰ.symm (Permᴰ.middle key xs chunks)))

rev_onto-Permᴰ : (xs acc : List Chunk) → Permᴰ (rev_onto acc xs) (xs ++ acc)
unfolding rev_onto
rev_onto-Permᴰ [] acc = Permᴰ.refl acc
rev_onto-Permᴰ (x ∷ xs) acc = Permᴰ.trans (rev_onto-Permᴰ xs (x ∷ acc)) (Permᴰ.middle x xs acc)

values-eq-map : (m : Dict ℕ Chunk) → values m ≡ map (λ e. e.1) m
unfolding values
values-eq-map [] = refl
values-eq-map ((_, ch) ∷ m) = ap (◌∷◌ ch) (values-eq-map m)

length-Permᴰ {ℓ} : {A : Type ℓ} {xs ys : List A} → Permᴰ xs ys → length xs ≡ length ys
length-Permᴰ Permᴰ.nil = refl
length-Permᴰ (Permᴰ.cons e d) = ap suc (length-Permᴰ d)
length-Permᴰ (Permᴰ.swap e f) = refl
length-Permᴰ (Permᴰ.trans d d') = length-Permᴰ d ∙ length-Permᴰ d'

length-values : (m : Dict ℕ Chunk) → length (values m) ≡ length m
unfolding values
length-values [] = refl
length-values (_ ∷ m) = ap suc (length-values m)

-- Each chunk is at most as recent as those after it.
abbrev pub IsAscending : List Chunk → Type 0
IsAscending [] = Unit
IsAscending (x ∷ xs) = All (λ y. x.last_used ≤ y.last_used) xs × IsAscending xs

abbrev IsDescending : List Chunk → Type 0
IsDescending [] = Unit
IsDescending (x ∷ xs) = All (λ y. y.last_used ≤ x.last_used) xs × IsDescending xs

sift-IsDescending : (key : Chunk) (xs : List Chunk) → IsDescending xs → IsDescending (sift key xs)
unfolding sift
sift-IsDescending key [] h = (tt, tt)
sift-IsDescending key (x ∷ xs) (h, t) = elim (Bool-cases (ltb key.last_used x.last_used)) [
  | inl c ↦ rw c (
    All-Permᴰ (λ y. y.last_used ≤ x.last_used) (Permᴰ.symm (sift-Permᴰ key xs))
        (omega (arith, ltb→lt key.last_used x.last_used c), h),
    sift-IsDescending key xs t,
  )
  | inr c ↦ rw c (
    (ground arith, All-mono _ (λ y. y.last_used ≤ key.last_used) (λ y le. ground arith) xs h),
    (h, t),
  )
]

sort_rounds-IsDescending :
    (chunks xs : List Chunk) → IsDescending xs → IsDescending (sort_rounds xs chunks)
unfolding sort_rounds
sort_rounds-IsDescending [] xs h = h
sort_rounds-IsDescending (key ∷ chunks) xs h =
    sort_rounds-IsDescending chunks (sift key xs) (sift-IsDescending key xs h)

rev_onto-IsAscending :
    (xs acc : List Chunk)
    → IsDescending xs
    → IsAscending acc
    → All (λ x. All (λ y. x.last_used ≤ y.last_used) acc) xs
    → IsAscending (rev_onto acc xs)
unfolding rev_onto
rev_onto-IsAscending [] acc d a h = a
rev_onto-IsAscending (x ∷ xs) acc (below, d) a (first, h) =
    rev_onto-IsAscending xs (x ∷ acc) d (first, a) (join xs below h)
  where
    join :
        (ys : List Chunk)
        → All (λ y. y.last_used ≤ x.last_used) ys
        → All (λ z. All (λ y. z.last_used ≤ y.last_used) acc) ys
        → All (λ z. All (λ y. z.last_used ≤ y.last_used) (x ∷ acc)) ys
    join [] b k = tt
    join (y ∷ ys) (b, bs) (k, ks) = ((b, k), join ys bs ks)

-- `delete` of the first chunks of an array, one after the other.
delete_first-none :
    (n : ℕ) (chunks : List Chunk) (m : Dict ℕ Chunk) (k : ℕ)
    → lookup k m ≡ none
    → lookup k (delete_first n chunks m) ≡ none
unfolding delete_first
delete_first-none zero chunks m k h = h
delete_first-none (suc n) [] m k h = h
delete_first-none (suc n) (ch ∷ chunks) m k h =
    delete_first-none n chunks (erase ch.index m) k (ground (arith, lookup-erase k ch.index m))

pub lookup-delete_first :
    (n : ℕ) (chunks : List Chunk) (m : Dict ℕ Chunk) (k : ℕ) {ch : Chunk}
    → lookup k (delete_first n chunks m) ≡ some ch
    → lookup k m ≡ some ch
unfolding delete_first
lookup-delete_first zero chunks m k h = h
lookup-delete_first (suc n) [] m k h = h
lookup-delete_first (suc n) (c ∷ chunks) m k h =
    ground (arith, lookup-erase k c.index m, lookup-delete_first n chunks (erase c.index m) k h)

pub delete_first_gone :
    (n : ℕ) (chunks : List Chunk) (m : Dict ℕ Chunk)
    → All (λ ch. lookup ch.index (delete_first n chunks m) ≡ none) (take n chunks)
unfolding delete_first take
delete_first_gone zero chunks m = tt
delete_first_gone (suc n) [] m = tt
delete_first_gone (suc n) (ch ∷ chunks) m = (
  delete_first-none n chunks (erase ch.index m) ch.index
      (ground (arith, lookup-erase ch.index ch.index m)),
  delete_first_gone n chunks (erase ch.index m),
)

delete_first-le :
    (n : ℕ) (chunks : List Chunk) (m : Dict ℕ Chunk) → length (delete_first n chunks m) ≤ length m
unfolding delete_first
delete_first-le zero chunks m = omega arith
delete_first-le (suc n) [] m = omega arith
delete_first-le (suc n) (ch ∷ chunks) m =
    omega (arith, delete_first-le n chunks (erase ch.index m), length-erase-le ch.index m)

pub delete_first-lt :
    (n : ℕ) (c : Chunk) (chunks : List Chunk) (m : Dict ℕ Chunk) {v : Chunk}
    → lookup c.index m ≡ some v
    → length (delete_first (suc n) (c ∷ chunks) m) + 1 ≤ length m
unfolding delete_first
delete_first-lt n c chunks m {v} h =
    omega (arith, delete_first-le n chunks (erase c.index m), length-erase_present c.index v m h)

module _ (shuffle : Dict ℕ Chunk → Dict ℕ Chunk)
    (fair : (m : Dict ℕ Chunk) → Permᴰ (shuffle m) m) where
  pub oldest_first-Permᴰ : (m : Dict ℕ Chunk) → Permᴰ (oldest_first shuffle m) (values m)
  unfolding oldest_first
  oldest_first-Permᴰ m = Permᴰ.trans (rev_onto-Permᴰ (sort_rounds [] (values (shuffle m))) []) (
      Permᴰ.trans (Permᴰ.append-nil _) (
        Permᴰ.trans (sort_rounds-Permᴰ (values (shuffle m)) [])
          (rw (values-eq-map, values-eq-map) (Permᴰ.map (λ e. e.1) (fair m)))))

  pub oldest_first-IsAscending : (m : Dict ℕ Chunk) → IsAscending (oldest_first shuffle m)
  unfolding oldest_first
  oldest_first-IsAscending m =
      rev_onto-IsAscending _ [] (sort_rounds-IsDescending (values (shuffle m)) [] tt) tt
        (none_below _)
    where
      none_below :
          (xs : List Chunk) → All (λ x. All {A = Chunk} (λ y. x.last_used ≤ y.last_used) []) xs
      none_below [] = tt
      none_below (x ∷ xs) = (tt, none_below xs)

  pub length-oldest_first : (m : Dict ℕ Chunk) → length (oldest_first shuffle m) ≡ length m
  length-oldest_first m = length-Permᴰ (oldest_first-Permᴰ m) ∙ length-values m
