-- ===== src/Common/Dict.antt =====
-- Go maps as association lists. Proofs elsewhere go by the laws.
use container_builder_shim.Common.Equality.{Eq, ◌==◌}
use container_builder_shim.Common.Tests.{if◌then◌else◌}
use container_builder_shim.Common.Lists.{length}
use Prim.Native.Nat.{◌≤◌, ◌+◌}
use mathlib.Core.Path.{◌≡◌, refl}
use mathlib.Core.Logic.{◌⊎◌, ◌≢◌}
use mathlib.Core.Option.{Option, none, some}
use mathlib.Core.List.{List, [], ◌∷◌}
use native.Mathlib.Omega.{arith}

abbrev pub Dict {ℓ κ} : Type ℓ → Type κ → Type (ℓ ⊔ κ)
Dict K V = List (K × V)

module _ {ℓ κ} {K : Type ℓ} {V : Type κ} ⦃e : Eq K⦄ where
  unfoldable pub lookup : K → Dict K V → Option V
  lookup k [] = none
  lookup k ((j, v) ∷ d) = if k == j then some v else lookup k d

  -- `m[k] = v`
  unfoldable pub insert : K → V → Dict K V → Dict K V
  insert k v [] = (k, v) ∷ []
  insert k v ((j, w) ∷ d) = if k == j then (k, v) ∷ d else (j, w) ∷ insert k v d

  -- `delete(m, k)`; every entry of the key goes.
  unfoldable pub erase : K → Dict K V → Dict K V
  erase k [] = []
  erase k ((j, w) ∷ d) = let rest = erase k d in if k == j then rest else (j, w) ∷ rest

  -- No key is listed twice.
  abbrev pub NodupKeys : Dict K V → Type κ
  NodupKeys [] = Unit
  NodupKeys ((k, _) ∷ d) = (lookup k d ≡ none) × NodupKeys d

  pub lookup-insert :
      (j k : K) (v : V) (d : Dict K V)
      → lookup j (insert k v d) ≡ (if j == k then some v else lookup j d)
  unfolding insert lookup
  lookup-insert j k v [] = ground arith
  lookup-insert j k v (_ ∷ d) = ground (arith, lookup-insert j k v d)

  pub lookup-erase :
      (j k : K) (d : Dict K V) → lookup j (erase k d) ≡ (if j == k then none else lookup j d)
  unfolding erase lookup
  lookup-erase j k [] = ground arith
  lookup-erase j k (_ ∷ d) = ground (arith, lookup-erase j k d)

  -- What an entry after an assignment, or after a deletion, says.
  pub lookup-insert_cases :
      (j k : K) (v w : V) (d : Dict K V)
      → lookup j (insert k v d) ≡ some w
      → ((j ≡ k) × (v ≡ w)) ⊎ (lookup j d ≡ some w)
  lookup-insert_cases j k v w d e = ground (arith, lookup-insert j k v d)

  pub lookup-erase_cases :
      (j k : K) (w : V) (d : Dict K V)
      → lookup j (erase k d) ≡ some w
      → (j ≢ k) × (lookup j d ≡ some w)
  lookup-erase_cases j k w d e = ground (arith, lookup-erase j k d)

  pub insert-NodupKeys : (k : K) (v : V) (d : Dict K V) → NodupKeys d → NodupKeys (insert k v d)
  unfolding insert lookup
  insert-NodupKeys k v [] _ = (refl, tt)
  insert-NodupKeys k v ((j, _) ∷ d) (fresh, u) =
      ground (arith, insert-NodupKeys k v d u, lookup-insert j k v d)

  pub erase-NodupKeys : (k : K) (d : Dict K V) → NodupKeys d → NodupKeys (erase k d)
  unfolding erase
  erase-NodupKeys k [] _ = tt
  erase-NodupKeys k ((j, _) ∷ d) (fresh, u) =
      ground (arith, erase-NodupKeys k d u, lookup-erase j k d)

  pub erase_absent : (k : K) (d : Dict K V) → lookup k d ≡ none → erase k d ≡ d
  unfolding erase lookup
  erase_absent k [] h = refl
  erase_absent k (_ ∷ d) h = ground (arith, erase_absent k d)

  pub length-erase-le : (k : K) (d : Dict K V) → length (erase k d) ≤ length d
  unfolding erase
  length-erase-le k [] = omega arith
  length-erase-le k (_ ∷ d) = ground (arith, length-erase-le k d)

  -- Deleting a present key makes the map smaller.
  pub length-erase_present :
      (k : K) (v : V) (d : Dict K V) → lookup k d ≡ some v → length (erase k d) + 1 ≤ length d
  unfolding erase lookup
  length-erase_present k v [] h = ground arith
  length-erase_present k v (_ ∷ d) h =
      ground (arith, length-erase_present k v d, length-erase-le k d)

  pub length-insert-le : (k : K) (v : V) (d : Dict K V) → length (insert k v d) ≤ length d + 1
  unfolding insert
  length-insert-le k v [] = omega arith
  length-insert-le k v (_ ∷ d) = ground (arith, length-insert-le k v d)

  -- Assigning to a present key keeps the size.
  pub length-insert_present :
      (k : K) (v w : V) (d : Dict K V) → lookup k d ≡ some w → length (insert k v d) ≡ length d
  unfolding insert lookup
  length-insert_present k v w [] h = ground arith
  length-insert_present k v w (_ ∷ d) h = ground (arith, length-insert_present k v w d)

  -- Deleting removes at most one entry where no key is listed twice.
  pub length-le-erase : (k : K) (d : Dict K V) → NodupKeys d → length d ≤ length (erase k d) + 1
  unfolding erase
  length-le-erase k [] u = omega arith
  length-le-erase k (_ ∷ d) (fresh, u) = ground (arith, length-le-erase k d u, erase_absent k d)
