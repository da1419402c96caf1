-- ===== src/Content/Info/Labels.antt =====
-- The labels of a blob in the metadata of a transfer, pkg/content/info.go.
use container_builder_shim.Common.{
  Bool, true, false, Bool-cases, Option, none, some, [], ◌∷◌, ◌++◌, ◌≡◌, refl, sym, ap, ap₂, ◌∙◌,
  inl, inr, if◌then◌else◌, ◌==◌, bytes_eq, nat_eq, equal_of, of_equal, arith, length, drop,
}
use container_builder_shim.Common.Bytes.{Bytes}
use container_builder_shim.Common.Dict.{Dict, lookup, lookup-insert}
use container_builder_shim.Common.Text.{has_prefix, trim_prefix}
use container_builder_shim.Content.Info.{label_prefix, transform_labels, add_labels}

has_prefix-append : (p s : Bytes) → has_prefix p (p ++ s) ≡ true
unfolding has_prefix
has_prefix-append [] s = refl
has_prefix-append (c ∷ p) s = ground (arith, has_prefix-append p s)

drop-append : (p s : Bytes) → drop (length p) (p ++ s) ≡ s
unfolding drop
drop-append [] s = refl
drop-append (c ∷ p) s = drop-append p s

trim_prefix-append : (p s : Bytes) → trim_prefix p (p ++ s) ≡ s
unfolding trim_prefix
trim_prefix-append p s = rw (has_prefix-append p s) (drop-append p s)

append-drop : (p s : Bytes) → has_prefix p s ≡ true → p ++ drop (length p) s ≡ s
unfolding has_prefix drop
append-drop [] s e = refl
append-drop (c ∷ p) [] e = absurd cc
append-drop (c ∷ p) (b ∷ s) e = ground (arith, append-drop p s)

append-trim_prefix : (p s : Bytes) → has_prefix p s ≡ true → p ++ trim_prefix p s ≡ s
unfolding trim_prefix
append-trim_prefix p s e = rw e (append-drop p s e)

-- A label's key is the metadata's without the prefix.
label_key :
    (j k : Bytes)
    → has_prefix label_prefix k ≡ true
    → (j == trim_prefix label_prefix k) ≡ (label_prefix ++ j == k)
label_key j k e = elim (Bool-cases (j == trim_prefix label_prefix k)) [
  | inl same ↦
      let at = equal_of j (trim_prefix label_prefix k) same in
      rw (same) (
        sym (
          of_equal (label_prefix ++ j) k
            (ap (λ s. label_prefix ++ s) at ∙ append-trim_prefix label_prefix k e)))
  | inr other ↦ elim (Bool-cases (label_prefix ++ j == k)) [
    | inr differ ↦ rw (other, differ) refl
    | inl same ↦
        let at =
          sym (trim_prefix-append label_prefix j)
          ∙ ap (λ s. trim_prefix label_prefix s) (equal_of (label_prefix ++ j) k same) in
        absurd (let yes = of_equal j (trim_prefix label_prefix k) at in cc)
  ]
]

no_label : (j k : Bytes) → has_prefix label_prefix k ≡ false → (label_prefix ++ j == k) ≡ false
no_label j k e = elim (Bool-cases (label_prefix ++ j == k)) [
  | inr differ ↦ differ
  | inl same ↦
      let at = sym (ap (λ s. has_prefix label_prefix s) (equal_of (label_prefix ++ j) k same)) in
      absurd (let yes = at ∙ has_prefix-append label_prefix j in cc)
]

not_label : (k j : Bytes) → has_prefix label_prefix k ≡ false → (k == label_prefix ++ j) ≡ false
not_label k j e = elim (Bool-cases (k == label_prefix ++ j)) [
  | inr differ ↦ differ
  | inl same ↦
      let at = ap (λ s. has_prefix label_prefix s) (equal_of k (label_prefix ++ j) same) in
      absurd (let yes = at ∙ has_prefix-append label_prefix j in cc)
]

same_label : (j k : Bytes) → (label_prefix ++ j == label_prefix ++ k) ≡ (j == k)
same_label j k =
    sym (label_key j (label_prefix ++ k) (has_prefix-append label_prefix k))
    ∙ ap (λ s. j == s) (trim_prefix-append label_prefix k)

-- Two maps that take the same test and go on alike.
same_test :
    {b c : Bool}
    → b ≡ c
    → (v : Bytes) {x y : Option Bytes} → x ≡ y
    → (if b then some v else x) ≡ (if c then some v else y)
same_test e v f = ap₂ (λ b x. if b then some v else x) e f

-- A label that is read is the entry with the prefix.
pub lookup-transform_labels :
    (j : Bytes) (m : Dict Bytes Bytes)
    → lookup j (transform_labels m) ≡ lookup (label_prefix ++ j) m
unfolding transform_labels lookup
lookup-transform_labels j [] = refl
lookup-transform_labels j ((k, v) ∷ m) = elim (Bool-cases (has_prefix label_prefix k)) [
  | inl e ↦ rw e (
      lookup-insert j (trim_prefix label_prefix k) v (transform_labels m)
      ∙ same_test (label_key j k e) v (lookup-transform_labels j m))
  | inr e ↦ rw (e, no_label j k e) (lookup-transform_labels j m)
]

-- Labels that are put into the metadata.
pub lookup-add_labels_plain :
    (k : Bytes) (labels m : Dict Bytes Bytes)
    → has_prefix label_prefix k ≡ false
    → lookup k (add_labels labels m) ≡ lookup k m
unfolding add_labels
lookup-add_labels_plain k [] m e = refl
lookup-add_labels_plain k ((j, v) ∷ labels) m e =
    lookup-insert k (label_prefix ++ j) v (add_labels labels m)
    ∙ rw (not_label k j e) (lookup-add_labels_plain k labels m e)

pub lookup-add_labels :
    (j : Bytes) (labels m : Dict Bytes Bytes)
    → lookup (label_prefix ++ j) m ≡ none
    → lookup (label_prefix ++ j) (add_labels labels m) ≡ lookup j labels
unfolding add_labels lookup
lookup-add_labels j [] m e = e
lookup-add_labels j ((k, v) ∷ labels) m e =
    lookup-insert (label_prefix ++ j) (label_prefix ++ k) v (add_labels labels m)
    ∙ same_test (same_label j k) v (lookup-add_labels j labels m e)
