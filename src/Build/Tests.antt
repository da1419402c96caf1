-- ===== src/Build/Tests.antt =====
-- Requests and outputs of a small build.
use container_builder_shim.Build.Solve.{
  SolveInput, SolveOpt, SolveLibraries, solve_attributes, new_solve_options,
}
use container_builder_shim.Common.{
  ◌↔◌, ◌≡◌, refl, ◌<◌, false, none, some, List, [], ◌∷◌, ◌++◌, map, All, bytes_eq, length,
  if◌then◌else◌, ◌==◌, nat_eq,
}
use container_builder_shim.Common.Bytes.{Bytes, codes}
use container_builder_shim.Common.Dict.{lookup}
use container_builder_shim.Common.Fallible.{value, failure}
use container_builder_shim.Build.{from_library, Platform, AgentConfig, Externals}
use container_builder_shim.Build.Request.{
  Metadata, extract_ssh_agent_configs, extract_entitlements, extract_string_map,
}
use container_builder_shim.Build.Request.Ssh.{
  Fresh, IsForwarded, extract_ssh_agent_configs-Forwarded,
}
use container_builder_shim.Build.Request.Entitlements.{
  IsAccepted, IsCovered, extract_entitlements-Fresh,
}
use container_builder_shim.Build.Request.Maps.{last_binding, lookup-extract_string_map}
use container_builder_shim.Build.Options.{
  FrontendOptions, dockerfile_frontend_attrs, parse_build_request, ParsedBuildRequest,
  ParsedBuildFeatures,
}
use container_builder_shim.Build.Options.Accepted.{IsRequest, parse_build_request-IsRequest}
use container_builder_shim.Build.Options.Attributes.{
  context_key, given, lookup-dockerfile_frontend_attrs,
}
use container_builder_shim.Build.Export.{
  ExportEntry, FileSystem, ExportOptions, parse_output, configured_exports, with_defaults,
  to_directory,
}
use container_builder_shim.Build.Export.Outputs.{IsSupported, parse_output-Supported}
use container_builder_shim.Build.Export.Configured.{IsPlaced, AreLocal, configured_exports-Placed}

abbrev linux : Platform
linux = record { os = codes "linux"; architecture = codes "arm64"; variant = [] }

-- Libraries that accept what they are given; a field of an output is the whole output.
abbrev lenient : Externals
lenient = record {
  decode_base64 = λ b. value b;
  parse_platform = λ b. value linux;
  default_spec = linux;
  parse_entitlement = λ b. none;
  parse_attestations = λ m. none;
  network_host = codes "network.host";
  security_insecure = codes "security.insecure";
  csv_fields = λ b. value (b ∷ []);
}

abbrev agent : AgentConfig
agent = record { id = codes "default"; paths = [] }

default_accepted : extract_ssh_agent_configs (codes " default" ∷ []) ≡ value (agent ∷ [])
unfolding extract_ssh_agent_configs bytes_eq nat_eq
default_accepted = refl

extract_ssh_agent_configs-Forwarded_example :
    Fresh [] (map (λ a. a.id) (agent ∷ []))
    × All IsForwarded (agent ∷ [])
    × (length (agent ∷ []) ≡ length (codes " default" ∷ []))
extract_ssh_agent_configs-Forwarded_example =
    extract_ssh_agent_configs-Forwarded (codes " default" ∷ []) (agent ∷ []) default_accepted

host_accepted :
    extract_entitlements lenient (codes " network.host" ∷ []) (codes "host") false
    ≡ value (codes "network.host" ∷ [])
unfolding extract_entitlements bytes_eq nat_eq
host_accepted = refl

extract_entitlements-Fresh_example :
    Fresh [] (codes "network.host" ∷ [])
    × All (IsAccepted lenient) (codes "network.host" ∷ [])
    × All (IsCovered [] (codes "network.host" ∷ [])) (
        (codes " network.host" ∷ [])
        ++ (if codes "host" == codes "host" then codes "network.host" ∷ [] else [])
        ++ (if false then codes "security.insecure" ∷ [] else []))
extract_entitlements-Fresh_example =
    extract_entitlements-Fresh lenient (codes " network.host" ∷ []) (codes "host") false
      (codes "network.host" ∷ []) host_accepted

lookup-extract_string_map_example :
    lookup (codes "a") (extract_string_map (codes "a=1" ∷ codes "a=2" ∷ []))
    ≡ last_binding (codes "a") (codes "a=1" ∷ codes "a=2" ∷ [])
lookup-extract_string_map_example =
    lookup-extract_string_map (codes "a") (codes "a=1" ∷ codes "a=2" ∷ [])

abbrev small_request : Metadata
small_request =
    (codes "build-id", codes "b" ∷ [])
    ∷ (codes "tag", codes "t" ∷ [])
    ∷ (codes "dockerfile", codes "FROM x" ∷ [])
    ∷ []

abbrev frontend_options : FrontendOptions
frontend_options = record {
  build_contexts = (codes "src", codes "/src") ∷ [];
  add_hosts = [];
  network = codes "host";
  shm_size = [];
  ulimits = codes "nofile=1" ∷ [];
  no_cache = none;
}

lookup-dockerfile_frontend_attrs_example :
    ((name : Bytes)
      → lookup (context_key name) (dockerfile_frontend_attrs (codes "f") frontend_options)
        ≡ lookup name frontend_options.build_contexts)
    × (lookup (codes "force-network-mode") (dockerfile_frontend_attrs (codes "f") frontend_options)
        ≡ given (codes "host"))
    × (lookup (codes "no-cache") (dockerfile_frontend_attrs (codes "f") frontend_options) ≡ none)
unfolding lookup
lookup-dockerfile_frontend_attrs_example =
    lookup-dockerfile_frontend_attrs (codes "f") frontend_options (refl, tt)

abbrev local_entry : ExportEntry
local_entry = record { kind = codes "local"; attrs = []; output_dir = []; output = false }

local_parsed : parse_output lenient (codes "type=local" ∷ []) ≡ value (local_entry ∷ [])
unfolding parse_output bytes_eq nat_eq
local_parsed = refl

parse_output-Supported_example :
    All IsSupported (local_entry ∷ [])
    × (length (local_entry ∷ []) ≡ length (codes "type=local" ∷ []))
parse_output-Supported_example =
    parse_output-Supported lenient (codes "type=local" ∷ []) (local_entry ∷ []) local_parsed

abbrev healthy : FileSystem
healthy = record { create_temp = none; mkdir_all = λ p. none }

abbrev read_only : FileSystem
read_only = record { create_temp = none; mkdir_all = λ p. some (from_library 1) }

abbrev export_options : List Bytes → ExportOptions
export_options outputs = record {
  check = false;
  outputs = outputs;
  build_id = codes "b";
  tag = codes "t";
}

unfoldable configured_entry : ExportEntry
unfolding with_defaults to_directory
configured_entry = with_defaults (codes "t") (to_directory (codes "b") local_entry)

local_configured :
    configured_exports lenient healthy (export_options (codes "type=local" ∷ []))
    ≡ (value (configured_entry ∷ []), false)
unfolding configured_exports configured_entry bytes_eq nat_eq
local_configured = refl

configured_exports-Placed_example :
    All (IsPlaced (codes "b")) (configured_entry ∷ [])
    × ((false ≡ false) ↔ AreLocal (configured_entry ∷ []))
    × (0 < length (configured_entry ∷ []))
configured_exports-Placed_example =
    configured_exports-Placed lenient healthy (export_options (codes "type=local" ∷ []))
      (configured_entry ∷ []) false refl local_configured

local_fails :
    configured_exports lenient read_only (export_options (codes "type=local" ∷ []))
    ≡ (failure (from_library 1), false)
unfolding configured_exports bytes_eq nat_eq
local_fails = refl

abbrev small_features : ParsedBuildFeatures
small_features = record {
  no_cache = none;
  labels = [];
  build_args = [];
  build_contexts = [];
  secrets = [];
  ssh = [];
  entitlements = [];
  attestations = [];
  network = [];
}

abbrev small_parsed : ParsedBuildRequest
small_parsed = record {
  build_id = codes "b";
  tag = codes "t";
  context_dir = codes ".";
  target = [];
  progress = codes "auto";
  dockerfile = codes "FROM x";
  dockerignore = codes "staging";
  build_platforms = linux ∷ [];
  platforms = linux ∷ [];
  features = small_features;
  check = false;
}

small_accepted :
    parse_build_request lenient (codes "staging") (linux ∷ []) small_request ≡ value small_parsed
unfolding parse_build_request bytes_eq nat_eq
small_accepted = refl

parse_build_request-IsRequest_example : IsRequest lenient small_request small_parsed
parse_build_request-IsRequest_example =
    parse_build_request-IsRequest lenient (codes "staging") (linux ∷ []) small_request small_parsed
      small_accepted

abbrev solve_input : SolveInput
solve_input = record {
  cache_in = [];
  cache_out = [];
  frontend = frontend_options;
  entitlements = codes "network.host" ∷ [];
  build_args = [];
  platforms = linux ∷ [];
  target = [];
  labels = [];
  attestations = [];
  ssh = agent ∷ [];
}

abbrev solve_libraries : SolveLibraries
solve_libraries = record {
  format = λ p. p.architecture;
  parse_import_cache = λ c. value c;
  parse_export_cache = λ c. value c;
  connect_agents = λ a. none;
}

abbrev solved : SolveOpt
solved = record {
  exports = local_entry ∷ [];
  cache_imports = [];
  cache_exports = [];
  frontend_attrs = solve_attributes (λ p. p.architecture) (codes "f") solve_input;
  allowed_entitlements = codes "network.host" ∷ [];
  agents = agent ∷ [];
}

solved_options :
    new_solve_options solve_libraries (codes "f") solve_input (local_entry ∷ []) ≡ value solved
unfolding new_solve_options
solved_options = refl
