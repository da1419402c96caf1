-- ===== src/Build/Frontend/Covered.antt =====
-- `resolveStates` of pkg/build/frontend.go: every image that the Dockerfile names has its state.
pub mod Sourced
use container_builder_shim.Common.{
  ℕ, ◌<◌, Bool, true, false, Option, none, some, Option-cases, List, [], ◌∷◌, ◌++◌, ◌≡◌, refl, sym,
  ap, subst, ◌⊎◌, inl, inr, All, All-mono, if◌then◌else◌, if-cases, bytes_eq, arith, ◌==◌, equal_of,
  ltb→lt, All-Permᴰ, ◌||◌,
}
use mathlib.Core.List.{Permᴰ}
use container_builder_shim.Common.Bytes.{Bytes, codes}
use container_builder_shim.Common.Decimal.{parse_int}
use container_builder_shim.Common.Int.{ℤ}
use container_builder_shim.Common.Text.{to_lower, trim_suffix}
use container_builder_shim.Common.Dict.{lookup, insert, lookup-insert}
use container_builder_shim.Common.Fallible.{Fallible, value, failure, >>=-value, ◌>>=◌}
use container_builder_shim.Build.{Error, Platform, Strings}
use container_builder_shim.Common.Fallible.{value-injective}
use container_builder_shim.Build.Frontend.{
  Stage, Sources, StateMeta, States, source_of, put, resolve, resolved_stage_platform, is_earlier,
  unless_earlier, resolve_dockerfile_stage, after_stage, resolve_dockerfile_stages, is_internal,
  preseed_from, preseed_copy_from_sources, unless_failed, resolve_states, Reference, Answer,
  answered, object_required, refused, Image, resolved_image_state, state_name, image_source,
  reference_source, equal_fold, is_some, global_args, indexed,
}
use container_builder_shim.Build.Frontend.Covered.Sourced.{
  IsPresent, Grows, or-cases, IsCovered, IsCovered-Grows, resolve-IsCovered,
}

module _ (lib : Sources) where
  -- The platform of a stage: its own, expanded and parsed, or that of the build.
  abbrev pub IsStagePlatform : Strings → Stage → Platform → Platform → Type 0
  IsStagePlatform args stage fallback p =
      (stage.platform ≡ []) × (p ≡ fallback)
      ⊎ ((word : Bytes) × (lib.process_word stage.platform args ≡ value word)
          × (lib.parse_platform word ≡ value p))

  resolved-IsStagePlatform :
      (args : Strings) (stage : Stage) (fallback p : Platform)
      → resolved_stage_platform lib stage args fallback ≡ value p
      → IsStagePlatform args stage fallback p
  unfolding resolved_stage_platform
  resolved-IsStagePlatform args stage fallback p e = elim (if-cases (stage.platform == []) _ _ e) [
    | inl (empty, e') ↦ inl (equal_of stage.platform [] empty, sym (value-injective e'))
    | inr (_, e') ↦ inr (>>=-value (lib.process_word stage.platform args) _ e')
  ]

  abbrev pub IsEarlierStage : List Stage → Bytes → ℕ → Type 0
  IsEarlierStage stages base index = (i : ℕ) × (lib.has_stage stages base ≡ some i) × (i < index)

  earlier :
      (o : Option ℕ) (index : ℕ)
      → is_earlier lib o index ≡ true
      → (i : ℕ) × (o ≡ some i) × (i < index)
  earlier none index e = absurd cc
  earlier (some i) index e = (i, refl, ltb→lt i index e)

  -- The base of a stage, expanded, is a stage before it, or it is covered on the stage's platform.
  abbrev pub IsStageCovered : Strings → List Stage → Platform → States → ℕ × Stage → Type 0
  IsStageCovered args stages platform states (index, stage) =
      (base : Bytes) × (p : Platform) × (lib.process_word stage.base_name args ≡ value base)
      × IsStagePlatform args stage platform p
      × (IsEarlierStage stages base index ⊎ IsCovered lib base p states)

  chosen :
      (b : Bool) (base : Bytes) (p : Platform) (s t : States)
      → unless_earlier lib b s (resolve lib base p s) ≡ value t
      → ((b ≡ true) ⊎ IsCovered lib base p t) × Grows s t
  chosen true base p s t e = (inl refl, subst (Grows s) (value-injective e) (λ k h. h))
  chosen false base p s t e =
      let (covered, grows) = resolve-IsCovered lib base p s t e in (inr covered, grows)

  early_or :
      (stages : List Stage) (base : Bytes) (p : Platform) (index : ℕ) (t : States)
      → (is_earlier lib (lib.has_stage stages base) index ≡ true) ⊎ IsCovered lib base p t
      → IsEarlierStage stages base index ⊎ IsCovered lib base p t
  early_or stages base p index t (inl e) = inl (earlier (lib.has_stage stages base) index e)
  early_or stages base p index t (inr h) = inr h

  stage-IsStageCovered :
      (args : Strings) (stages : List Stage) (platform : Platform) (index : ℕ) (stage : Stage)
      (s t : States)
      → resolve_dockerfile_stage lib args stages platform index stage s ≡ value t
      → IsStageCovered args stages platform t (index, stage) × Grows s t
  unfolding resolve_dockerfile_stage
  stage-IsStageCovered args stages platform index stage s t e =
      let (base, a, e') = >>=-value (lib.process_word stage.base_name args) _ e in
      let (p, b, e'') = >>=-value (resolved_stage_platform lib stage args platform) _ e' in
      let (covered, grows) =
        chosen (is_earlier lib (lib.has_stage stages base) index) base p s t e'' in
      (
        (
          base,
          p,
          a,
          resolved-IsStagePlatform args stage platform p b,
          early_or stages base p index t covered,
        ),
        grows,
      )

  IsStageCovered-Grows :
      (args : Strings) (stages : List Stage) (platform : Platform) (s t : States)
      → Grows s t
      → (x : ℕ × Stage) → IsStageCovered args stages platform s x
      → IsStageCovered args stages platform t x
  IsStageCovered-Grows args stages platform s t g x (base, p, a, b, inl early) =
      (base, p, a, b, inl early)
  IsStageCovered-Grows args stages platform s t g x (base, p, a, b, inr here) =
      (base, p, a, b, inr (IsCovered-Grows lib base p s t g here))

  -- What a run of the stages leaves, if none failed.
  abbrev Completes :
      Strings → List Stage → Platform → List (ℕ × Stage) → States → States × Option Error → Type 0
  Completes args stages platform order s r =
      r.1 ≡ none → All (IsStageCovered args stages platform r.0) order × Grows s r.0

  after-Completes :
      (args : Strings) (stages : List Stage) (platform : Platform) (index : ℕ) (stage : Stage)
      (order : List (ℕ × Stage)) (s : States) (rest : States → States × Option Error)
      (r : Fallible Error States)
      → resolve_dockerfile_stage lib args stages platform index stage s ≡ r
      → ((u : States) → Completes args stages platform order u (rest u))
      → Completes args stages platform ((index, stage) ∷ order) s (after_stage lib r s rest)
  after-Completes args stages platform index stage order s rest (failure x) ran h e = absurd cc
  after-Completes args stages platform index stage order s rest (value s') ran h e =
      let (here, grows) = stage-IsStageCovered args stages platform index stage s s' ran in
      let (later, more) = h s' e in
      (
        (IsStageCovered-Grows args stages platform s' (rest s').0 more (index, stage) here, later),
        λ k x. more k (grows k x),
      )

  stages-IsStageCovered :
      (args : Strings) (stages : List Stage) (platform : Platform) (order : List (ℕ × Stage))
      (s : States)
      → Completes args stages platform order s
          (resolve_dockerfile_stages lib args stages platform order s)
  unfolding resolve_dockerfile_stages
  stages-IsStageCovered args stages platform [] s = λ e. (tt, λ k h. h)
  stages-IsStageCovered args stages platform ((index, stage) ∷ order) s =
      after-Completes args stages platform index stage order s
        (resolve_dockerfile_stages lib args stages platform order)
        (resolve_dockerfile_stage lib args stages platform index stage s) refl
        (stages-IsStageCovered args stages platform order)

  -- A `--from` names no image: it is empty, a number or a stage.
  abbrev pub IsInternal : List Stage → Bytes → Type 0
  IsInternal stages from =
      (from ≡ [])
      ⊎ ((n : ℤ) × (parse_int from ≡ some n))
      ⊎ ((i : ℕ) × (lib.has_stage stages from ≡ some i))

  some_of : {A : Type 0} (o : Option A) → is_some lib o ≡ true → (a : A) × (o ≡ some a)
  some_of none e = absurd cc
  some_of (some a) e = (a, refl)

  is_internal-IsInternal :
      (stages : List Stage) (from : Bytes)
      → is_internal lib stages from ≡ true
      → IsInternal stages from
  unfolding is_internal
  is_internal-IsInternal stages from e =
      let is_number = is_some lib (parse_int from) in
      let is_named = is_some lib (lib.has_stage stages from) in
      elim (or-cases (from == [] || is_number) is_named e) [
        | inr named ↦ inr (inr (some_of (lib.has_stage stages from) named))
        | inl e' ↦ elim (or-cases (from == []) is_number e') [
          | inl empty ↦ inl (equal_of from [] empty)
          | inr number ↦ inr (inl (some_of (parse_int from) number))
        ]
      ]

  -- A `--from` names no image, or it is covered.
  abbrev pub IsFromCovered : List Stage → Platform → States → Bytes → Type 0
  IsFromCovered stages platform states from =
      IsInternal stages from ⊎ IsCovered lib from platform states

  IsFromCovered-Grows :
      (stages : List Stage) (platform : Platform) (s t : States)
      → Grows s t
      → (from : Bytes) → IsFromCovered stages platform s from
      → IsFromCovered stages platform t from
  IsFromCovered-Grows stages platform s t g from (inl e) = inl e
  IsFromCovered-Grows stages platform s t g from (inr h) =
      inr (IsCovered-Grows lib from platform s t g h)

  from_step :
      (stages : List Stage) (platform : Platform) (from : Bytes) (s t : States)
      → (if is_internal lib stages from then value s else resolve lib from platform s) ≡ value t
      → IsFromCovered stages platform t from × Grows s t
  from_step stages platform from s t e = elim (if-cases (is_internal lib stages from) _ _ e) [
    | inl (inside, same) ↦ (
      inl (is_internal-IsInternal stages from inside),
      subst (Grows s) (value-injective same) (λ k h. h),
    )
    | inr (_, done) ↦
        let (covered, grows) = resolve-IsCovered lib from platform s t done in (inr covered, grows)
  ]

  froms-IsFromCovered :
      (stages : List Stage) (platform : Platform) (froms : List Bytes) (s t : States)
      → preseed_from lib stages platform froms s ≡ value t
      → All (IsFromCovered stages platform t) froms × Grows s t
  unfolding preseed_from
  froms-IsFromCovered stages platform [] s t e =
      (tt, subst (Grows s) (value-injective e) (λ k h. h))
  froms-IsFromCovered stages platform (from ∷ rest) s t e =
      let (s', first, e') = >>=-value _ (preseed_from lib stages platform rest) e in
      let (here, grows) = from_step stages platform from s s' first in
      let (later, more) = froms-IsFromCovered stages platform rest s' t e' in
      ((IsFromCovered-Grows stages platform s' t more from here, later), λ k h. more k (grows k h))

  -- Every copy of the stage.
  abbrev pub AreCopiesCovered : List Stage → Platform → States → Stage → Type 0
  AreCopiesCovered stages platform states stage =
      All (IsFromCovered stages platform states) stage.copies_from

  copies-AreCopiesCovered :
      (stages : List Stage) (platform : Platform) (rest : List Stage) (s t : States)
      → preseed_copy_from_sources lib stages platform rest s ≡ value t
      → All (AreCopiesCovered stages platform t) rest × Grows s t
  unfolding preseed_copy_from_sources
  copies-AreCopiesCovered stages platform [] s t e =
      (tt, subst (Grows s) (value-injective e) (λ k h. h))
  copies-AreCopiesCovered stages platform (stage ∷ rest) s t e =
      let (s', first, e') =
        >>=-value (preseed_from lib stages platform stage.copies_from s)
          (preseed_copy_from_sources lib stages platform rest) e in
      let (here, grows) = froms-IsFromCovered stages platform stage.copies_from s s' first in
      let (later, more) = copies-AreCopiesCovered stages platform rest s' t e' in
      (
        (
          All-mono (IsFromCovered stages platform s') (IsFromCovered stages platform t)
              (IsFromCovered-Grows stages platform s' t more) stage.copies_from here,
          later,
        ),
        λ k h. more k (grows k h),
      )

  unless_failed-value :
      (r : States × Option Error) (s : States)
      → unless_failed lib r ≡ value s
      → (r.1 ≡ none) × (r.0 ≡ s)
  unless_failed-value (states, none) s e = (refl, value-injective e)
  unless_failed-value (states, some x) s e = absurd cc

  -- Whatever the order in which the goroutines of the stages finish: if `resolveStates` succeeds,
  -- then the base of every stage, with the global arguments expanded, is a stage before it, or is
  -- covered on the stage's platform; and every `--from` of a copy is empty, a number or a stage, or
  -- is covered. A name is covered where it is `scratch` or `context`, is no reference, or its image
  -- is not found or has no digest; or where the states have an entry under the image's familiar name,
  -- without `:latest`, and the platform.
  pub resolve_states-IsCovered :
      (finish : List (ℕ × Stage) → List (ℕ × Stage))
      → ((xs : List (ℕ × Stage)) → Permᴰ (finish xs) xs)
      → (build_platform : Platform) (build_args : Strings) (target : Bytes) (stages : List Stage)
        (platform : Platform) (states : States)
      → resolve_states lib finish build_platform build_args target stages platform ≡ value states
      → All
          (IsStageCovered
            (global_args lib build_platform platform build_args target)
            stages
            platform
            states)
          (indexed 0 stages)
        × All (AreCopiesCovered stages platform states) stages
  unfolding resolve_states
  resolve_states-IsCovered finish fair build_platform build_args target stages platform states e =
      let args = global_args lib build_platform platform build_args target in
      let order = finish (indexed 0 stages) in
      let (s, first, e') =
        >>=-value (unless_failed lib (resolve_dockerfile_stages lib args stages platform order []))
          (preseed_copy_from_sources lib stages platform stages) e in
      let (clean, same) = unless_failed-value _ s first in
      let (copies, more) = copies-AreCopiesCovered stages platform stages s states e' in
      let (bases, _) = stages-IsStageCovered args stages platform order [] clean in
      (
        All-Permᴰ (IsStageCovered args stages platform states) (fair (indexed 0 stages)) (
            All-mono (IsStageCovered args stages platform s)
              (IsStageCovered args stages platform states)
              (IsStageCovered-Grows args stages platform s states more) order
              (subst (λ u. All (IsStageCovered args stages platform u) order) same bases)),
        copies,
      )
