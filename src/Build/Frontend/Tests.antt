-- ===== src/Build/Frontend/Tests.antt =====
-- A Dockerfile of two stages, the second from the first, that copies from a stage and from an image.
use mathlib.Core.List.{reverse}
use mathlib.Core.List.Permᴰ
use container_builder_shim.Common.{
  ℕ, ◌≡◌, false, refl, none, some, List, [], ◌∷◌, All, if◌then◌else◌, ◌==◌, bytes_eq,
}
use container_builder_shim.Common.Bytes.{Bytes, codes}
use container_builder_shim.Common.Fallible.{value}
use container_builder_shim.Build.{Platform}
use container_builder_shim.Build.Frontend.{
  Stage, Sources, answered, States, resolve_states, global_args, indexed,
}
use container_builder_shim.Build.Frontend.Covered.{
  IsStageCovered, AreCopiesCovered, resolve_states-IsCovered,
}

abbrev linux : Platform
linux = record { os = codes "linux"; architecture = codes "arm64"; variant = [] }

abbrev sources : Sources
unfolding bytes_eq
sources = record {
  parse_reference = λ name. answered (record { text = name; digested = false });
  resolve_image_config = λ name platform. answered (record { digest = codes "d"; config = [] });
  familiar_name = λ text. value text;
  marshal_metadata = λ config. value config;
  process_word = λ word args. value word;
  parse_platform = λ word. value linux;
  normalize = λ platform. platform;
  format = λ platform. platform.os;
  format_all = λ platform. platform.os;
  os_version = λ platform. [];
  has_stage = λ stages name. if name == codes "build" then some 0 else none;
}

abbrev stage_of : Bytes → Bytes → List Bytes → Stage
stage_of name base from = record {
  name = name;
  base_name = base;
  platform = [];
  copies_from = from;
}

abbrev stages : List Stage
stages =
    stage_of (codes "build") (codes "alpine:latest") ([] ∷ [])
    ∷ stage_of [] (codes "build") (codes "0" ∷ codes "busybox" ∷ [])
    ∷ []

-- The last stage finishes first.
abbrev last_first : List (ℕ × Stage) → List (ℕ × Stage)
last_first = reverse

abbrev states : States
states =
    (
      codes "alpine::linux",
      record { layout = codes "alpine:latest@d"; platform = linux; metadata = [] },
    )
    ∷ (
      codes "busybox::linux",
      record { layout = codes "busybox@d"; platform = linux; metadata = [] },
    )
    ∷ []

resolves : resolve_states sources last_first linux [] [] stages linux ≡ value states
unfolding resolve_states
resolves = refl

resolve_states-IsCovered_example :
    All
      (IsStageCovered sources (global_args sources linux linux [] []) stages linux states)
      (indexed 0 stages)
    × All (AreCopiesCovered sources stages linux states) stages
resolve_states-IsCovered_example =
    resolve_states-IsCovered sources last_first Permᴰ.reverse linux [] [] stages linux states
      resolves
