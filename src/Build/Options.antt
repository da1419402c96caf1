-- ===== src/Build/Options.antt =====
-- pkg/build/buildopts.go: a whole request and its errors, and the attributes for the frontend.
pub mod Accepted
pub mod Attributes
use container_builder_shim.Common.{
  Bool, true, false, Option, none, some, List, [], ◌∷◌, ◌++◌, bytes_eq, if◌then◌else◌,
}
use container_builder_shim.Common.Bytes.{Bytes, codes}
use container_builder_shim.Common.Text.{join}
use container_builder_shim.Common.Dict.{Dict, lookup, insert}
use container_builder_shim.Common.Fallible.{Fallible, value, failure, ◌>>=◌}
use container_builder_shim.Build.{
  Error, missing_build_id, missing_context_ref, Platform, AgentConfig, Strings, Externals,
}
use container_builder_shim.Build.Request.{
  Metadata, values_of, first_metadata_value, last_metadata_value, has_metadata_flag, is_empty,
  extract_ssh_agent_configs, extract_build_contexts, normalized_network_mode, extract_string_map,
  parse_progress, extract_entitlements, extract_attestations, extract_base64_map,
  parse_target_platforms, decode_dockerfile_inputs,
}

pub record ParsedBuildFeatures : Type 0 where
  pub no_cache : Option Bytes
  pub labels : Strings
  pub build_args : Strings
  pub build_contexts : Strings
  pub secrets : Strings
  pub ssh : List AgentConfig
  pub entitlements : List Bytes
  pub attestations : Strings
  pub network : Bytes

pub record ParsedBuildRequest : Type 0 where
  pub build_id : Bytes
  pub tag : Bytes
  pub context_dir : Bytes
  pub target : Bytes
  pub progress : Bytes
  pub dockerfile : Bytes
  pub dockerignore : Bytes
  pub build_platforms : List Platform
  pub platforms : List Platform
  pub features : ParsedBuildFeatures
  pub check : Bool

-- `values, ok := contextMap[key]`, then the last of the values.
unfoldable pub no_cache_of : Metadata → Option Bytes
unfolding lookup
no_cache_of m = elim (lookup (codes "no-cache") m) [
  | some vs ↦ some (last_metadata_value vs)
  | none ↦ none
]

module _ (ext : Externals) where
  unfoldable pub parse_build_features : Metadata → Fallible Error ParsedBuildFeatures
  unfolding values_of has_metadata_flag no_cache_of extract_build_contexts extract_base64_map
      extract_ssh_agent_configs normalized_network_mode extract_entitlements extract_attestations
      extract_string_map
  parse_build_features m = do
    build_contexts ← extract_build_contexts (values_of (codes "build-contexts") m)
    secrets ← extract_base64_map ext (values_of (codes "secrets") m)
    ssh ← extract_ssh_agent_configs (values_of (codes "ssh") m)
    network ← normalized_network_mode (last_metadata_value (values_of (codes "network") m))
    entitlements ←
        extract_entitlements ext (values_of (codes "entitlements") m) network
          (has_metadata_flag (codes "privileged") m)
    attestations ← extract_attestations ext m
    value (record {
      no_cache = no_cache_of m;
      labels = extract_string_map (values_of (codes "labels") m);
      build_args = extract_string_map (values_of (codes "build-args") m);
      build_contexts = build_contexts;
      secrets = secrets;
      ssh = ssh;
      entitlements = entitlements;
      attestations = attestations;
      network = network;
    })

  -- `context`, the current directory where there is none.
  unfoldable pub context_dir_of : Metadata → Bytes
  unfolding first_metadata_value
  context_dir_of m = elim (first_metadata_value (codes "context") m) [
    | none ↦ codes "."
    | some d ↦ if is_empty d then codes "." else d
  ]

  -- The request past its two mandatory keys; `build_platforms` are `utils.BuildPlatforms()`.
  unfoldable pub parse_inputs :
      Bytes → List Platform → Bytes → Bytes → Metadata → Fallible Error ParsedBuildRequest
  unfolding decode_dockerfile_inputs parse_progress parse_target_platforms parse_build_features
      context_dir_of
  parse_inputs staging build_platforms build_id tag m = do
    (dockerfile, dockerignore) ← decode_dockerfile_inputs ext staging m
    progress ← parse_progress m
    platforms ← parse_target_platforms ext (values_of (codes "platforms") m)
    features ← parse_build_features m
    value (record {
      build_id = build_id;
      tag = tag;
      context_dir = context_dir_of m;
      target = elim (first_metadata_value (codes "target") m) [ some t ↦ t | none ↦ [] ];
      progress = progress;
      dockerfile = dockerfile;
      dockerignore = dockerignore;
      build_platforms = elim build_platforms [ [] ↦ ext.default_spec ∷ [] | p ∷ ps ↦ p ∷ ps ];
      platforms = platforms;
      features = features;
      check = elim (first_metadata_value (codes "check") m) [ some _ ↦ true | none ↦ false ];
    })

  unfoldable pub parse_build_request :
      Bytes → List Platform → Metadata → Fallible Error ParsedBuildRequest
  unfolding parse_inputs
  parse_build_request staging build_platforms m = elim (first_metadata_value (codes "build-id") m) [
    | none ↦ failure missing_build_id
    | some build_id ↦ elim (first_metadata_value (codes "tag") m) [
      | none ↦ failure missing_context_ref
      | some tag ↦ parse_inputs staging build_platforms build_id tag m
    ]
  ]

-- The options that `dockerfileFrontendAttrs` reads.
pub record FrontendOptions : Type 0 where
  pub build_contexts : Strings
  pub add_hosts : List Bytes
  pub network : Bytes
  pub shm_size : Bytes
  pub ulimits : List Bytes
  pub no_cache : Option Bytes

-- `attrs["context:"+name] = source` for each pair.
unfoldable pub contexts_onto : Strings → Strings → Strings
unfolding insert
contexts_onto attrs [] = attrs
contexts_onto attrs ((name, source) ∷ contexts) =
    contexts_onto (insert (codes "context:" ++ name) source attrs) contexts

abbrev pub set_text : Bytes → Bytes → Strings → Strings
set_text key [] attrs = attrs
set_text key (c ∷ s) attrs = insert key (c ∷ s) attrs

abbrev pub set_list : Bytes → List Bytes → Strings → Strings
set_list key [] attrs = attrs
set_list key (v ∷ vs) attrs = insert key (join (codes ",") (v ∷ vs)) attrs

abbrev pub set_option : Bytes → Option Bytes → Strings → Strings
set_option key none attrs = attrs
set_option key (some v) attrs = insert key v attrs

unfoldable pub dockerfile_frontend_attrs : Bytes → FrontendOptions → Strings
unfolding contexts_onto insert join
dockerfile_frontend_attrs filename b =
    let named = contexts_onto (insert (codes "filename") filename []) b.build_contexts in
    let hosts = set_list (codes "add-hosts") b.add_hosts named in
    let network = set_text (codes "force-network-mode") b.network hosts in
    let shm = set_text (codes "shm-size") b.shm_size network in
    let ulimits = set_list (codes "ulimit") b.ulimits shm in
    set_option (codes "no-cache") b.no_cache ulimits
