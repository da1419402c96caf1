-- ===== src/Build.antt =====
-- pkg/build: the metadata of a build request, its validation, and the exports of a build.
-- A Go map is an association list, a missing key of `contextMap` an empty list of values. What the
-- packages base64, platforms, entitlements and attestations answer is a parameter, `Externals`.
pub mod Request
pub mod Options
pub mod Export
pub mod Platforms
pub mod Solve
pub mod Frontend
mod Tests
use container_builder_shim.Common.{Option, List, ℕ}
use container_builder_shim.Common.Bytes.{Bytes}
use container_builder_shim.Common.Dict.{Dict}
use container_builder_shim.Common.Fallible.{Fallible}

-- The errors of pkg/build, and those that a library returns.
pub data Error : Type 0 where
  missing_build_id missing_context_ref missing_context_dockerfile invalid_progress : Error
  invalid_build_context invalid_network_mode unsupported_ssh : Error
  invalid_field missing_type unsupported_type : Error
  from_library : ℕ → Error

pub record Platform : Type 0 where
  pub os : Bytes
  pub architecture : Bytes
  pub variant : Bytes

abbrev pub Strings : Type 0
Strings = Dict Bytes Bytes

pub record AgentConfig : Type 0 where
  pub id : Bytes
  pub paths : List Bytes

-- The libraries that the parsers call.
pub record Externals : Type 0 where
  pub decode_base64 : Bytes → Fallible Error Bytes
  pub parse_platform : Bytes → Fallible Error Platform
  pub default_spec : Platform
  pub parse_entitlement : Bytes → Option Error
  pub parse_attestations : Strings → Option Error
  -- What `String` returns for the two entitlements.
  pub network_host : Bytes
  pub security_insecure : Bytes
  pub csv_fields : Bytes → Fallible Error (List Bytes)
