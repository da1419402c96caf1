-- ===== src/Build/Frontend.antt =====
-- pkg/build/frontend.go: which images a Dockerfile's stages and copies name, how each is resolved to a
-- source before the solve, and the options that the solve gets.
-- The parser of Dockerfiles, the shell lexer, references, platforms and the image resolver are the
-- record `Sources`. The goroutines of the stages write the states under a mutex: the order in which
-- they come to it is an argument.
pub mod Covered
mod Tests
use container_builder_shim.Common.{
  ℕ, suc, Bool, true, false, ◌||◌, Option, none, some, List, [], ◌∷◌, ◌++◌, if◌then◌else◌, ◌==◌,
  ltb, bytes_eq,
}
use container_builder_shim.Common.Bytes.{Bytes, codes}
use container_builder_shim.Common.Decimal.{parse_int}
use container_builder_shim.Common.Dict.{Dict, lookup, insert}
use container_builder_shim.Common.Text.{to_lower, trim_suffix}
use container_builder_shim.Common.Fallible.{Fallible, value, failure, ◌>>=◌}
use container_builder_shim.Build.{Error, Platform, Strings}

-- A stage of the Dockerfile, with the `--from` of each of its copies, empty where there is none.
pub record Stage : Type 0 where
  pub name : Bytes
  pub base_name : Bytes
  pub platform : Bytes
  pub copies_from : List Bytes

-- What a reference, or the resolver, answers; an object that is required but missing is no error.
pub data Answer {ℓ} (A : Type ℓ) : Type ℓ where
  answered : A → Answer A
  object_required : Answer A
  refused : Error → Answer A

-- The digest of an image and its configuration.
pub record Image : Type 0 where
  pub digest : Bytes
  pub config : Bytes

-- A parsed reference: its `String`, and whether it has a digest.
pub record Reference : Type 0 where
  pub text : Bytes
  pub digested : Bool

pub record Sources : Type 0 where
  pub parse_reference : Bytes → Answer Reference
  pub resolve_image_config : Bytes → Platform → Answer Image
  -- `ParseNormalizedNamed`, then `FamiliarString`.
  pub familiar_name : Bytes → Fallible Error Bytes
  pub marshal_metadata : Bytes → Fallible Error Bytes
  pub process_word : Bytes → Strings → Fallible Error Bytes
  pub parse_platform : Bytes → Fallible Error Platform
  pub normalize : Platform → Platform
  pub format : Platform → Bytes
  pub format_all : Platform → Bytes
  pub os_version : Platform → Bytes
  pub has_stage : List Stage → Bytes → Option ℕ

-- What becomes of a source: the image layout that it is read from, with its platform, and its
-- metadata.
pub record StateMeta : Type 0 where
  pub layout : Bytes
  pub platform : Platform
  pub metadata : Bytes

abbrev pub States : Type 0
States = Dict Bytes StateMeta

-- The stages of the loop's `range`, each with its index.
abbrev pub indexed : ℕ → List Stage → List (ℕ × Stage)
indexed index [] = []
indexed index (stage ∷ stages) = (index, stage) ∷ indexed (suc index) stages

-- `strings.EqualFold`, on ASCII text.
unfoldable pub equal_fold : Bytes → Bytes → Bool
unfolding to_lower bytes_eq
equal_fold a b = to_lower a == to_lower b

-- `globalArgs`; the build arguments come last.
unfoldable pub set_all_args : Strings → Strings → Strings
unfolding insert bytes_eq
set_all_args [] args = args
set_all_args ((k, v) ∷ build_args) args = set_all_args build_args (insert k v args)

module _ (lib : Sources) where
  unfoldable pub global_args : Platform → Platform → Strings → Bytes → Strings
  unfolding set_all_args bytes_eq
  global_args build target build_args stage = set_all_args build_args (
      (codes "BUILDPLATFORM", lib.format build)
      ∷ (codes "BUILDOS", build.os)
      ∷ (codes "BUILDOSVERSION", lib.os_version build)
      ∷ (codes "BUILDARCH", build.architecture)
      ∷ (codes "BUILDVARIANT", build.variant)
      ∷ (codes "TARGETPLATFORM", lib.format_all target)
      ∷ (codes "TARGETOS", target.os)
      ∷ (codes "TARGETOSVERSION", lib.os_version target)
      ∷ (codes "TARGETARCH", target.architecture)
      ∷ (codes "TARGETVARIANT", target.variant)
      ∷ (codes "TARGETSTAGE", if stage == [] then codes "default" else stage)
      ∷ [])

  abbrev pub fqdn : Reference → Bytes → Bytes
  fqdn ref digest = if ref.digested then ref.text else ref.text ++ codes "@" ++ digest

  -- The name of a state, from the familiar name of its image.
  unfoldable pub state_name : Bytes → Platform → Bytes
  unfolding trim_suffix
  state_name familiar platform =
      trim_suffix (codes ":latest") familiar
      ++ codes "::"
      ++ lib.format_all (lib.normalize platform)

  -- `resolvedImageState`
  unfoldable pub resolved_image_state :
      Reference → Image → Platform → Fallible Error (Bytes × StateMeta)
  unfolding state_name
  resolved_image_state ref image platform = do
    familiar ← lib.familiar_name ref.text
    metadata ← lib.marshal_metadata image.config
    value (
      state_name familiar platform,
      record { layout = fqdn ref image.digest; platform = platform; metadata = metadata },
    )

  abbrev pub image_source :
      Reference → Platform → Answer Image → Fallible Error (Option (Bytes × StateMeta))
  image_source ref platform object_required = value none
  image_source ref platform (refused e) = failure e
  image_source ref platform (answered image) =
      if image.digest == []
      then value none
      else resolved_image_state ref image platform >>= λ entry. value (some entry)

  abbrev pub reference_source :
      Bytes → Platform → Answer Reference → Fallible Error (Option (Bytes × StateMeta))
  reference_source name platform object_required = value none
  reference_source name platform (refused e) = failure e
  reference_source name platform (answered ref) =
      image_source ref platform (lib.resolve_image_config name platform)

  -- The state that a name stands for, if it is to be resolved.
  unfoldable pub source_of : Bytes → Platform → Fallible Error (Option (Bytes × StateMeta))
  unfolding equal_fold resolved_image_state
  source_of name platform =
      if equal_fold name (codes "scratch") || equal_fold name (codes "context")
      then value none
      else reference_source name platform (lib.parse_reference name)

  abbrev pub put : Option (Bytes × StateMeta) → States → States
  put none states = states
  put (some (name, state)) states = insert name state states

  -- `sourceStateResolver.resolve`
  unfoldable pub resolve : Bytes → Platform → States → Fallible Error States
  unfolding source_of insert bytes_eq
  resolve name platform states = do source ← source_of name platform; value (put source states)

  -- `resolvedStagePlatform`
  unfoldable pub resolved_stage_platform : Stage → Strings → Platform → Fallible Error Platform
  unfolding bytes_eq
  resolved_stage_platform stage args fallback =
      if stage.platform == []
      then value fallback
      else (lib.process_word stage.platform args >>= λ word. lib.parse_platform word)

  -- The stage's base is a stage before it.
  abbrev pub is_earlier : Option ℕ → ℕ → Bool
  is_earlier none index = false
  is_earlier (some i) index = ltb i index

  abbrev pub unless_earlier : Bool → States → Fallible Error States → Fallible Error States
  unless_earlier true states resolved = value states
  unless_earlier false states resolved = resolved

  -- `resolveDockerfileStage`
  unfoldable pub resolve_dockerfile_stage :
      Strings → List Stage → Platform → ℕ → Stage → States → Fallible Error States
  unfolding resolved_stage_platform resolve
  resolve_dockerfile_stage args stages platform index stage states = do
    base ← lib.process_word stage.base_name args
    stage_platform ← resolved_stage_platform stage args platform
    unless_earlier (is_earlier (lib.has_stage stages base) index) states
        (resolve base stage_platform states)

  -- A goroutine that fails leaves the states as they are; its error waits in the channel.
  abbrev pub after_stage :
      Fallible Error States → States → (States → States × Option Error) → States × Option Error
  after_stage (value states') states rest = rest states'
  after_stage (failure e) states rest = ((rest states).0, some e)

  -- `resolveDockerfileStages`: the stages with their index, in the order in which they finish.
  unfoldable pub resolve_dockerfile_stages :
      Strings → List Stage → Platform → List (ℕ × Stage) → States → States × Option Error
  unfolding resolve_dockerfile_stage
  resolve_dockerfile_stages args stages platform [] states = (states, none)
  resolve_dockerfile_stages args stages platform ((index, stage) ∷ order) states =
      after_stage (resolve_dockerfile_stage args stages platform index stage states) states
        (resolve_dockerfile_stages args stages platform order)

  abbrev is_some {ℓ} : {A : Type ℓ} → Option A → Bool
  is_some none = false
  is_some (some _) = true

  -- A `--from` that names no image: none, a number, or a stage.
  unfoldable pub is_internal : List Stage → Bytes → Bool
  unfolding parse_int bytes_eq
  is_internal stages from =
      from == [] || is_some (parse_int from) || is_some (lib.has_stage stages from)

  unfoldable pub preseed_from : List Stage → Platform → List Bytes → States → Fallible Error States
  unfolding is_internal resolve
  preseed_from stages platform [] states = value states
  preseed_from stages platform (from ∷ rest) states =
      (if is_internal stages from then value states else resolve from platform states)
      >>= preseed_from stages platform rest

  -- `preseedCopyFromSources`
  unfoldable pub preseed_copy_from_sources :
      List Stage → Platform → List Stage → States → Fallible Error States
  unfolding preseed_from
  preseed_copy_from_sources stages platform [] states = value states
  preseed_copy_from_sources stages platform (stage ∷ rest) states =
      preseed_from stages platform stage.copies_from states
      >>= preseed_copy_from_sources stages platform rest

  abbrev pub unless_failed : States × Option Error → Fallible Error States
  unless_failed (states, none) = value states
  unless_failed (states, some e) = failure e

  -- `resolveStates`, of a Dockerfile that is parsed. The goroutines of the stages finish in the
  -- order `finish`.
  unfoldable pub resolve_states :
      (List (ℕ × Stage) → List (ℕ × Stage))
      → Platform
      → Strings
      → Bytes
      → List Stage
      → Platform
      → Fallible Error States
  unfolding resolve_dockerfile_stages preseed_copy_from_sources global_args
  resolve_states finish build_platform build_args target stages platform = do
    states ← unless_failed (
        resolve_dockerfile_stages (global_args build_platform platform build_args target) stages
          platform (finish (indexed 0 stages)) [])
    preseed_copy_from_sources stages platform stages states

-- The states in `frontendOpt` of `dockerfileConvertOpt`.
unfoldable pub state_options : States → Strings → Strings
unfolding insert bytes_eq
state_options [] options = options
state_options ((k, s) ∷ states) options =
    insert (codes "input-metadata:" ++ k) s.metadata
      (insert (codes "context:" ++ k) (codes "input:" ++ k) (state_options states options))

-- `frontendOpt` of `dockerfileConvertOpt`, from the attributes of the request.
unfoldable pub frontend_options : Strings → States → Strings
unfolding set_all_args state_options
frontend_options attributes states = state_options states (
    set_all_args attributes
      ((codes "local.metadatatransfer", codes "false") ∷ (codes "local.differ", codes "none") ∷ []))
