-- ===== src/Build/Request.antt =====
-- pkg/build/buildopts.go: from the metadata of a request to its options.
pub mod Ssh
pub mod Entitlements
pub mod Maps
use container_builder_shim.Common.{
  ℕ, Bool, true, false, ◌&&◌, ◌||◌, not, Option, none, some, List, [], ◌∷◌, ◌++◌, map, ltb,
  if◌then◌else◌, ◌==◌, nat_eq, bytes_eq, length,
}
use container_builder_shim.Common.Bytes.{Bytes, codes}
use container_builder_shim.Common.Text.{
  cut, trim_space, to_lower, has_prefix, trim_prefix, has_suffix, contains_byte, join, equals_sign,
}
use container_builder_shim.Common.Dict.{Dict, lookup, insert}
use container_builder_shim.Common.Fallible.{Fallible, value, failure, ◌>>=◌}
use container_builder_shim.Build.{
  Error, missing_build_id, missing_context_ref, missing_context_dockerfile, invalid_progress,
  invalid_build_context, invalid_network_mode, unsupported_ssh, Platform, AgentConfig, Strings,
  Externals,
}

abbrev pub Metadata : Type 0
Metadata = Dict Bytes (List Bytes)

-- `contextMap[key]`, nil where the key is missing.
unfoldable pub values_of : Bytes → Metadata → List Bytes
unfolding lookup
values_of key m = elim (lookup key m) [ some vs ↦ vs | none ↦ [] ]

unfoldable pub first_metadata_value : Bytes → Metadata → Option Bytes
unfolding values_of
first_metadata_value key m = elim (values_of key m) [ [] ↦ none | v ∷ _ ↦ some v ]

abbrev pub last_metadata_value : List Bytes → Bytes
last_metadata_value [] = []
last_metadata_value (v ∷ []) = v
last_metadata_value (_ ∷ w ∷ vs) = last_metadata_value (w ∷ vs)

unfoldable pub has_metadata_flag : Bytes → Metadata → Bool
unfolding lookup
has_metadata_flag key m = elim (lookup key m) [ some _ ↦ true | none ↦ false ]

-- `values == ""` and the like, for a Go string.
abbrev pub is_empty : Bytes → Bool
is_empty [] = true
is_empty (_ ∷ _) = false

abbrev pub member : Bytes → List Bytes → Bool
member v [] = false
member v (w ∷ ws) = v == w || member v ws

abbrev socket_directory : Bytes
socket_directory = codes "/var/host-services/"

unfoldable pub is_forwarded_ssh_socket_path : Bytes → Bool
unfolding has_prefix trim_prefix has_suffix contains_byte
is_forwarded_ssh_socket_path path =
    let name = trim_prefix socket_directory path in
    has_prefix socket_directory path
    && not (is_empty name || contains_byte 47 name)
    && has_prefix (codes "ssh-auth") name
    && has_suffix (codes ".sock") name

-- One value of `ssh`: an agent, or none where the value is refused.
unfoldable pub agent_of : Bytes → Option AgentConfig
unfolding cut trim_space is_forwarded_ssh_socket_path bytes_eq
agent_of raw =
    let (before, after, found) = cut equals_sign (trim_space raw) in
    let id = trim_space before in
    let path = trim_space after in
    if trim_space raw == codes "default"
    then some (record { id = codes "default"; paths = [] })
    else if not found || is_empty id || not (is_forwarded_ssh_socket_path path)
    then none
    else some (record { id = id; paths = path ∷ [] })

-- The loop of `extractSSHAgentConfigs`, with the ids that it has seen.
unfoldable pub agents_from : List Bytes → List Bytes → Fallible Error (List AgentConfig)
unfolding agent_of
agents_from seen [] = value []
agents_from seen (raw ∷ values) = elim (agent_of raw) [
  | none ↦ failure unsupported_ssh
  | some agent ↦
      let rest = agents_from (agent.id ∷ seen) values in
      if member agent.id seen
      then failure unsupported_ssh
      else do agents ← rest; value (agent ∷ agents)
]

unfoldable pub extract_ssh_agent_configs : List Bytes → Fallible Error (List AgentConfig)
unfolding agents_from
extract_ssh_agent_configs values = agents_from [] values

-- The loop of `extractBuildContexts`.
unfoldable pub build_contexts_onto : Strings → List Bytes → Fallible Error Strings
unfolding cut trim_space insert
build_contexts_onto contexts [] = value contexts
build_contexts_onto contexts (raw ∷ values) =
    let (before, after, found) = cut equals_sign raw in
    let name = trim_space before in
    let source = trim_space after in
    let rest = build_contexts_onto (insert name source contexts) values in
    if not found || is_empty name || is_empty source then failure invalid_build_context else rest

unfoldable pub extract_build_contexts : List Bytes → Fallible Error Strings
unfolding build_contexts_onto
extract_build_contexts values = build_contexts_onto [] values

unfoldable pub normalized_network_mode : Bytes → Fallible Error Bytes
unfolding trim_space to_lower
normalized_network_mode raw =
    let mode = to_lower (trim_space raw) in
    if is_empty mode || mode == codes "default"
    then value []
    else if member mode (codes "none" ∷ codes "host" ∷ codes "sandbox" ∷ [])
    then value mode
    else failure invalid_network_mode

unfoldable pub string_map_onto : Strings → List Bytes → Strings
unfolding cut insert
string_map_onto result [] = result
string_map_onto result (raw ∷ values) =
    let (key, mapped, found) = cut equals_sign raw in
    string_map_onto (insert key (if found then mapped else []) result) values

unfoldable pub extract_string_map : List Bytes → Strings
unfolding string_map_onto
extract_string_map values = string_map_onto [] values

unfoldable pub parse_progress : Metadata → Fallible Error Bytes
unfolding first_metadata_value
parse_progress m = elim (first_metadata_value (codes "progress") m) [
  | none ↦ value (codes "auto")
  | some p ↦
      if member p (codes "auto" ∷ codes "tty" ∷ codes "plain" ∷ [])
      then value p
      else failure invalid_progress
]

-- The last value of an attestation's key, under the frontend's name for it.
unfoldable pub set_attestation : Bytes → List Bytes → Strings → Strings
set_attestation frontend [] rest = rest
set_attestation frontend (v ∷ vs) rest = (frontend, last_metadata_value (v ∷ vs)) ∷ rest

unfoldable pub attestation_values : Metadata → Strings
unfolding values_of set_attestation
attestation_values m =
    set_attestation (codes "attest:provenance") (values_of (codes "attest-provenance") m)
      (set_attestation (codes "attest:sbom") (values_of (codes "attest-sbom") m) [])

module _ (ext : Externals) where
  -- The loop of `extractEntitlements`, with the values that it has kept.
  unfoldable pub entitlements_from : List Bytes → List Bytes → Fallible Error (List Bytes)
  unfolding trim_space
  entitlements_from kept [] = value []
  entitlements_from kept (raw ∷ values) =
      let v = trim_space raw in
      let skip = entitlements_from kept values in
      let rest = entitlements_from (v ∷ kept) values in
      if is_empty v then skip else elim (ext.parse_entitlement v) [
        | some e ↦ failure e
        | none ↦ if member v kept then skip else do vs ← rest; value (v ∷ vs)
      ]

  unfoldable pub extract_entitlements : List Bytes → Bytes → Bool → Fallible Error (List Bytes)
  unfolding entitlements_from
  extract_entitlements values network privileged =
      let hosts = if network == codes "host" then ext.network_host ∷ [] else [] in
      let insecure = if privileged then ext.security_insecure ∷ [] else [] in
      entitlements_from [] (values ++ hosts ++ insecure)

  unfoldable pub extract_attestations : Metadata → Fallible Error Strings
  unfolding attestation_values
  extract_attestations m = elim (attestation_values m) [
    | [] ↦ value []
    | a ∷ rest ↦ elim (ext.parse_attestations (a ∷ rest)) [
      | some e ↦ failure e
      | none ↦ value (a ∷ rest)
    ]
  ]

  -- The loop of `extractBase64Map`.
  unfoldable pub base64_map_onto : Strings → List Bytes → Fallible Error Strings
  unfolding cut insert
  base64_map_onto result [] = value result
  base64_map_onto result (raw ∷ values) =
      let (key, encoded, found) = cut equals_sign raw in
      let skip = base64_map_onto (insert key [] result) values in
      elim (ext.decode_base64 encoded) [
        | failure e ↦ if found then failure e else skip
        | value decoded ↦ base64_map_onto (insert key (if found then decoded else []) result) values
      ]

  unfoldable pub extract_base64_map : List Bytes → Fallible Error Strings
  unfolding base64_map_onto
  extract_base64_map values = base64_map_onto [] values

  unfoldable pub parse_all : List Bytes → Fallible Error (List Platform)
  parse_all [] = value []
  parse_all (v ∷ vs) = do p ← ext.parse_platform v; ps ← parse_all vs; value (p ∷ ps)

  unfoldable pub parse_target_platforms : List Bytes → Fallible Error (List Platform)
  unfolding parse_all
  parse_target_platforms [] = value (ext.default_spec ∷ [])
  parse_target_platforms (v ∷ vs) = parse_all (v ∷ vs)

  -- `decodeDockerfileInputs`: the Dockerfile and the ignore file.
  unfoldable pub decode_dockerfile_inputs : Bytes → Metadata → Fallible Error (Bytes × Bytes)
  unfolding first_metadata_value
  decode_dockerfile_inputs staging m = elim (first_metadata_value (codes "dockerfile") m) [
    | none ↦ failure missing_context_dockerfile
    | some encoded ↦ do
      dockerfile ← ext.decode_base64 encoded
      elim (first_metadata_value (codes "dockerignore") m) [
        | none ↦ value (dockerfile, staging)
        | some encoded_ignore ↦ do
          ignore ← ext.decode_base64 encoded_ignore
          value (dockerfile, ignore ++ 10 ∷ staging)
      ]
  ]
