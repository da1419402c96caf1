-- ===== src/Build/Request/Entitlements.antt =====
-- pkg/build/buildopts.go: the entitlements of a request.
use container_builder_shim.Common.{
  ◌≡◌, refl, sym, ◌∙◌, subst, arith, Bool, true, false, ◌||◌, none, List, [], ◌∷◌, ◌++◌,
  if◌then◌else◌, ◌==◌, bytes_eq, All, if-cases, Option-cases, inl, inr,
}
use container_builder_shim.Common.Bytes.{Bytes, codes}
use container_builder_shim.Common.Text.{trim_space}
use container_builder_shim.Common.Fallible.{value, >>=-value}
use container_builder_shim.Build.{Externals}
use container_builder_shim.Build.Request.{member, entitlements_from, extract_entitlements, is_empty}
use container_builder_shim.Build.Request.Ssh.{Fresh}
use container_builder_shim.Common.Fallible.{value-injective}

-- The value is blank, or it is, without the space around it, in one of the lists.
abbrev pub IsCovered : List Bytes → List Bytes → Bytes → Type 0
IsCovered kept result raw =
    (is_empty (trim_space raw) || (member (trim_space raw) kept || member (trim_space raw) result))
    ≡ true

or-swap : (a b c d : Bool) → (a || ((b || c) || d)) ≡ (a || (c || (b || d)))
or-swap true b c d = refl
or-swap false true true d = refl
or-swap false true false d = refl
or-swap false false c d = refl

or-false : (a b : Bool) → a ≡ true → (a || b) ≡ true
or-false a b h = ground arith

or-true : (a b : Bool) → b ≡ true → (a || b) ≡ true
or-true a b h = ground arith

IsCovered-later :
    (v : Bytes) (kept later values : List Bytes)
    → All (IsCovered (v ∷ kept) later) values
    → All (IsCovered kept (v ∷ later)) values
IsCovered-later v kept later [] h = tt
IsCovered-later v kept later (raw ∷ values) (h, hs) =
    let t = trim_space raw in
    (
      sym (or-swap (is_empty t) (t == v) (member t kept) (member t later)) ∙ h,
      IsCovered-later v kept later values hs,
    )

member-head : (v : Bytes) (vs : List Bytes) → member v (v ∷ vs) ≡ true
member-head v vs = ground arith

module _ (ext : Externals) where
  -- An entitlement that the library accepts.
  abbrev pub IsAccepted : Bytes → Type 0
  IsAccepted v = (is_empty v ≡ false) × (ext.parse_entitlement v ≡ none)

  entitlements_from-Fresh :
      (kept values result : List Bytes)
      → entitlements_from ext kept values ≡ value result
      → Fresh kept result × All IsAccepted result
  unfolding entitlements_from
  entitlements_from-Fresh kept [] [] h = (tt, tt)
  entitlements_from-Fresh kept [] (_ ∷ _) h = absurd cc
  entitlements_from-Fresh kept (raw ∷ values) result h =
      let v = trim_space raw in
      elim (if-cases (is_empty v) _ _ h) [
        | inl (_, k) ↦ entitlements_from-Fresh kept values result k
        | inr (filled, k) ↦ elim (Option-cases (ext.parse_entitlement v)) [
          | inr (x, e) ↦ absurd (let bad = simp e at k in cc)
          | inl e ↦
              let k' = simp e at k in
              elim (if-cases (member v kept) _ _ k') [
                | inl (_, same) ↦ entitlements_from-Fresh kept values result same
                | inr (new, more) ↦
                    let (later, found, whole) =
                      >>=-value (entitlements_from ext (v ∷ kept) values) _ more in
                    let (fresh, accepted) = entitlements_from-Fresh (v ∷ kept) values later found in
                    subst (λ vs. Fresh kept vs × All IsAccepted vs) (value-injective whole)
                      ((new, fresh), ((filled, e), accepted))
              ]
        ]
      ]

  entitlements_from-Covered :
      (kept values result : List Bytes)
      → entitlements_from ext kept values ≡ value result
      → All (IsCovered kept result) values
  unfolding entitlements_from
  entitlements_from-Covered kept [] result h = tt
  entitlements_from-Covered kept (raw ∷ values) result h =
      let v = trim_space raw in
      elim (if-cases (is_empty v) _ _ h) [
        | inl (blank, k) ↦
            (or-false (is_empty v) _ blank, entitlements_from-Covered kept values result k)
        | inr (filled, k) ↦ elim (Option-cases (ext.parse_entitlement v)) [
          | inr (x, e) ↦ absurd (let bad = simp e at k in cc)
          | inl e ↦
              let k' = simp e at k in
              elim (if-cases (member v kept) _ _ k') [
                | inl (old, same) ↦ (
                  or-true (is_empty v) _ (or-false (member v kept) _ old),
                  entitlements_from-Covered kept values result same,
                )
                | inr (new, more) ↦
                    let (later, found, whole) =
                      >>=-value (entitlements_from ext (v ∷ kept) values) _ more in
                    subst (λ vs. All (IsCovered kept vs) (raw ∷ values)) (value-injective whole)
                      (
                        or-true (is_empty v) _ (or-true (member v kept) _ (member-head v later)),
                        IsCovered-later v kept later values
                            (entitlements_from-Covered (v ∷ kept) values later found),
                      )
              ]
        ]
      ]

  -- Where the entitlements of a request are accepted, none of the result stands twice, the library
  -- accepts each one, and each value of the request that is not blank is in the result, without
  -- the space around it; so is the host's network where the mode is `host`, and the insecure mode
  -- where the request is privileged.
  pub extract_entitlements-Fresh :
      (values : List Bytes) (network : Bytes) (privileged : Bool) (result : List Bytes)
      → extract_entitlements ext values network privileged ≡ value result
      → Fresh [] result
        × All IsAccepted result
        × All (IsCovered [] result) (
            values
            ++ (if network == codes "host" then ext.network_host ∷ [] else [])
            ++ (if privileged then ext.security_insecure ∷ [] else []))
  unfolding extract_entitlements
  extract_entitlements-Fresh values network privileged result h =
      let asked : List Bytes =
        values
        ++ (if network == codes "host" then ext.network_host ∷ [] else [])
        ++ (if privileged then ext.security_insecure ∷ [] else []) in
      let (fresh, accepted) = entitlements_from-Fresh [] asked result h in
      (fresh, accepted, entitlements_from-Covered [] asked result h)
