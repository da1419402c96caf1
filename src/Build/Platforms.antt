-- ===== src/Build/Platforms.antt =====
-- pkg/build/utils/platform.go: the platforms of a build, in the order in which they are pulled.
use container_builder_shim.Common.{
  ℕ, suc, ◌≡◌, refl, Bool, true, false, not, ◌&&◌, List, [], ◌∷◌, map, ltb, if◌then◌else◌, ◌==◌,
  bytes_eq,
}
use container_builder_shim.Common.Bytes.{Bytes, codes}
use container_builder_shim.Build.{Platform}

-- The position of an architecture in an order, or the length of the order.
abbrev position : Bytes → List Bytes → ℕ
position a [] = 0
position a (b ∷ order) = if a == b then 0 else suc (position a order)

-- `platformRank`; the second argument says whether the current architecture is arm64.
unfoldable pub platform_rank : Bytes → Bool → ℕ
unfolding bytes_eq
platform_rank a arm =
    let rest =
      codes "mips64" ∷ codes "mips64el" ∷ codes "ppc64le" ∷ codes "riscv64" ∷ codes "s390x" ∷ [] in
    if arm
    then position a (codes "arm64" ∷ codes "arm" ∷ codes "amd64" ∷ rest)
    else position a (codes "amd64" ∷ codes "arm64" ∷ codes "arm" ∷ rest)

-- `<` on strings.
abbrev less_text : Bytes → Bytes → Bool
less_text [] [] = false
less_text [] (_ ∷ _) = true
less_text (_ ∷ _) [] = false
less_text (a ∷ s) (b ∷ t) = if ltb a b then true else if ltb b a then false else less_text s t

-- The comparison of the sort; whether the current architecture is amd64, and whether it is arm64.
unfoldable pub less : Bool → Bool → Platform → Platform → Bool
unfolding platform_rank
less amd arm p q =
    if not amd && not arm
    then less_text p.architecture q.architecture
    else ltb (platform_rank p.architecture arm) (platform_rank q.architecture arm)

-- A stable sort: each element goes before those that it does not come after.
unfoldable pub insert_stable :
    (Platform → Platform → Bool) → Platform → List Platform → List Platform
insert_stable lt p [] = p ∷ []
insert_stable lt p (q ∷ qs) = if lt q p then q ∷ insert_stable lt p qs else p ∷ q ∷ qs

unfoldable pub sort_stable : (Platform → Platform → Bool) → List Platform → List Platform
unfolding insert_stable
sort_stable lt [] = []
sort_stable lt (p ∷ ps) = insert_stable lt p (sort_stable lt ps)

abbrev linux : Bytes → Bytes → Platform
linux architecture variant = record {
  os = codes "linux";
  architecture = architecture;
  variant = variant;
}

-- The nine platforms, sorted.
unfoldable pub ordered : Bool → Bool → List Platform
unfolding less sort_stable
ordered amd arm = sort_stable (less amd arm) (
    linux (codes "arm64") (codes "v8")
    ∷ linux (codes "arm") (codes "v7")
    ∷ linux (codes "arm") (codes "v6")
    ∷ linux (codes "amd64") []
    ∷ linux (codes "mips64") []
    ∷ linux (codes "mips64el") []
    ∷ linux (codes "ppc64le") []
    ∷ linux (codes "riscv64") []
    ∷ linux (codes "s390x") []
    ∷ [])

-- `BuildPlatforms`, for the current architecture.
unfoldable pub build_platforms : Bytes → List Platform
unfolding ordered bytes_eq
build_platforms current = ordered (current == codes "amd64") (current == codes "arm64")

-- Each order starts with the native platforms; on any other machine it is alphabetical.
abbrev pub expected_order : Bool → Bool → List (Bytes × Bytes)
expected_order amd arm =
    let rest : List (Bytes × Bytes) =
      (codes "mips64", [])
      ∷ (codes "mips64el", [])
      ∷ (codes "ppc64le", [])
      ∷ (codes "riscv64", [])
      ∷ (codes "s390x", [])
      ∷ [] in
    if arm
    then (codes "arm64", codes "v8")
      ∷ (codes "arm", codes "v7")
      ∷ (codes "arm", codes "v6")
      ∷ (codes "amd64", [])
      ∷ rest
    else if amd
    then (codes "amd64", [])
      ∷ (codes "arm64", codes "v8")
      ∷ (codes "arm", codes "v7")
      ∷ (codes "arm", codes "v6")
      ∷ rest
    else (codes "amd64", [])
      ∷ (codes "arm", codes "v7")
      ∷ (codes "arm", codes "v6")
      ∷ (codes "arm64", codes "v8")
      ∷ rest

ordered_lem :
    (amd arm : Bool)
    → map (λ p. (p.architecture, p.variant)) (ordered amd arm) ≡ expected_order amd arm
unfolding ordered bytes_eq
ordered_lem true true = refl
ordered_lem true false = refl
ordered_lem false true = refl
ordered_lem false false = refl

-- On an arm64 machine the platforms are arm64, the two of arm, amd64 and the other five; on an amd64
-- machine amd64 comes first; on any other machine they are in the alphabetical order of their
-- architectures, v7 before v6.
pub build_platforms-order :
    (current : Bytes)
    → map (λ p. (p.architecture, p.variant)) (build_platforms current)
      ≡ expected_order (current == codes "amd64") (current == codes "arm64")
unfolding build_platforms
build_platforms-order current = ordered_lem (current == codes "amd64") (current == codes "arm64")
