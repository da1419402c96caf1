-- ===== src/Build/Export/Outputs.antt =====
-- pkg/build/build.go: what an accepted output is.
use container_builder_shim.Common.{
  suc, ◌≡◌, refl, sym, ap, ◌∙◌, subst, true, false, not, none, List, [], ◌∷◌, ◌==◌, bytes_eq,
  length, All, if-cases, Bool-cases, inl, inr, arith,
}
use container_builder_shim.Common.Bytes.{Bytes, codes}
use container_builder_shim.Common.Text.{cut, trim_space, to_lower, equals_sign}
use container_builder_shim.Common.Dict.{lookup, lookup-insert}
use container_builder_shim.Common.Fallible.{value, >>=-value}
use container_builder_shim.Build.{Externals}
use container_builder_shim.Build.Request.{member, is_empty}
use container_builder_shim.Common.Fallible.{value-injective}
use container_builder_shim.Build.Export.{
  ExportEntry, empty_entry, parse_field, parse_fields, check_type, supported_types,
  parse_output_csv, parse_output,
}

-- The type is one of the three, and is not among the attributes.
abbrev pub IsSupported : ExportEntry → Type 0
IsSupported e = (member e.kind supported_types ≡ true) × (lookup (codes "type") e.attrs ≡ none)

not_equal_sym : (a b : Bytes) → (a == b) ≡ false → (b == a) ≡ false
not_equal_sym a b h = elim (Bool-cases (b == a)) [
  | inr e ↦ e
  | inl e ↦ absurd (let p : b ≡ a = ground arith in let q : a ≡ b = sym p in ground arith)
]

parse_field-Typeless :
    (entry later : ExportEntry) (field : Bytes)
    → lookup (codes "type") entry.attrs ≡ none
    → parse_field entry field ≡ value later
    → lookup (codes "type") later.attrs ≡ none
unfolding parse_field
parse_field-Typeless entry later field h k =
    let p = cut equals_sign field in
    let key = to_lower (trim_space p.0) in
    elim (if-cases (not p.2) _ _ k) [
      | inl (_, e) ↦ absurd cc
      | inr (_, k') ↦ elim (if-cases (key == codes "type") _ _ k') [
        | inl (_, e) ↦ subst (λ x. lookup (codes "type") x.attrs ≡ none) (value-injective e) h
        | inr (other, e) ↦
            subst (λ x. lookup (codes "type") x.attrs ≡ none) (value-injective e)
              (lookup-insert (codes "type") key (trim_space p.1) entry.attrs
                ∙ rw (not_equal_sym key (codes "type") other) h)
      ]
    ]

parse_fields-Typeless :
    (entry later : ExportEntry) (fields : List Bytes)
    → lookup (codes "type") entry.attrs ≡ none
    → parse_fields entry fields ≡ value later
    → lookup (codes "type") later.attrs ≡ none
unfolding parse_fields
parse_fields-Typeless entry later [] h k =
    subst (λ x. lookup (codes "type") x.attrs ≡ none) (value-injective k) h
parse_fields-Typeless entry later (f ∷ fs) h k =
    let (e, k1, k2) = >>=-value (parse_field entry f) _ k in
    parse_fields-Typeless e later fs (parse_field-Typeless entry e f h k1) k2

check_type-Supported :
    (entry later : ExportEntry)
    → lookup (codes "type") entry.attrs ≡ none
    → check_type entry ≡ value later
    → IsSupported later
unfolding check_type
check_type-Supported entry later h k = elim (if-cases (is_empty entry.kind) _ _ k) [
  | inl (_, e) ↦ absurd cc
  | inr (_, k') ↦ elim (if-cases (member entry.kind supported_types) _ _ k') [
    | inl (known, e) ↦ subst IsSupported (value-injective e) (known, h)
    | inr (_, e) ↦ absurd cc
  ]
]

-- Outputs are accepted only if each has one of the types `oci`, `tar` and `local`, which does not
-- stand among its attributes; there is then one export for each output.
pub parse_output-Supported :
    (ext : Externals) (outputs : List Bytes) (es : List ExportEntry)
    → parse_output ext outputs ≡ value es
    → All IsSupported es × (length es ≡ length outputs)
unfolding parse_output parse_output_csv lookup
parse_output-Supported ext [] [] h = (tt, refl)
parse_output-Supported ext [] (_ ∷ _) h = absurd cc
parse_output-Supported ext (o ∷ os) es h =
    let (e, h1, k1) = >>=-value (parse_output_csv ext o) _ h in
    let (later, h2, k2) = >>=-value (parse_output ext os) _ k1 in
    let (fields, h3, k3) = >>=-value (ext.csv_fields o) _ h1 in
    let (entry, h4, k4) = >>=-value (parse_fields empty_entry fields) _ k3 in
    let typeless = parse_fields-Typeless empty_entry entry fields refl h4 in
    let (all, lengths) = parse_output-Supported ext os later h2 in
    subst (λ xs. All IsSupported xs × (length xs ≡ suc (length os))) (value-injective k2)
      ((check_type-Supported entry e typeless k4, all), ap suc lengths)
