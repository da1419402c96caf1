-- ===== src/Build/Solve.antt =====
-- pkg/build/build.go: the frontend's attributes of a solve, `newSolveOptions`.
use container_builder_shim.Common.{
  ◌≡◌, refl, sym, ap, ◌∙◌, Option, none, some, List, [], ◌∷◌, ◌++◌, map, bytes_eq, Option-cases,
  inl, inr,
}
use container_builder_shim.Common.Bytes.{Bytes, codes}
use container_builder_shim.Common.Text.{join}
use container_builder_shim.Common.Dict.{insert}
use container_builder_shim.Common.Fallible.{Fallible, value, failure, ◌>>=◌, >>=-value}
use container_builder_shim.Build.{Error, Strings, Platform, AgentConfig}
use container_builder_shim.Common.Fallible.{value-injective}
use container_builder_shim.Build.Options.{FrontendOptions, dockerfile_frontend_attrs, set_text}
use container_builder_shim.Build.Export.{ExportEntry}

-- The options of a build that `newSolveOptions` reads besides those of the frontend.
pub record SolveInput : Type 0 where
  pub cache_in : List Bytes
  pub cache_out : List Bytes
  pub frontend : FrontendOptions
  pub entitlements : List Bytes
  pub build_args : Strings
  pub platforms : List Platform
  pub target : Bytes
  pub labels : Strings
  pub attestations : Strings
  pub ssh : List AgentConfig

pub record SolveOpt : Type 0 where
  pub exports : List ExportEntry
  pub cache_imports : List Bytes
  pub cache_exports : List Bytes
  pub frontend_attrs : Strings
  pub allowed_entitlements : List Bytes
  -- The SSH agents that the session forwards.
  pub agents : List AgentConfig

-- `format` writes a normalized platform; the others parse caches and connect to agents.
pub record SolveLibraries : Type 0 where
  pub format : Platform → Bytes
  pub parse_import_cache : List Bytes → Fallible Error (List Bytes)
  pub parse_export_cache : List Bytes → Fallible Error (List Bytes)
  pub connect_agents : List AgentConfig → Option Error

-- `attrs[prefix+k] = v` for each pair of a map.
unfoldable pub set_all : Bytes → Strings → Strings → Strings
unfolding insert
set_all start [] attrs = attrs
set_all start ((k, v) ∷ m) attrs = set_all start m (insert (start ++ k) v attrs)

unfoldable pub set_platforms : (Platform → Bytes) → List Platform → Strings → Strings
unfolding insert join
set_platforms format [] attrs = attrs
set_platforms format (p ∷ []) attrs = insert (codes "platform") (format p) attrs
set_platforms format (p ∷ q ∷ ps) attrs =
    insert (codes "multi-platform") (codes "true")
      (insert (codes "platform") (join (codes ",") (map format (p ∷ q ∷ ps))) attrs)

unfoldable pub solve_attributes : (Platform → Bytes) → Bytes → SolveInput → Strings
unfolding dockerfile_frontend_attrs set_all set_platforms
solve_attributes format filename i =
    let args =
      set_all (codes "build-arg:") i.build_args (dockerfile_frontend_attrs filename i.frontend) in
    let targeted = set_text (codes "target") i.target (set_platforms format i.platforms args) in
    set_all [] i.attestations (set_all (codes "label:") i.labels targeted)

-- The agents are connected last, if there are any.
unfoldable pub forward_agents :
    SolveLibraries → List AgentConfig → SolveOpt → Fallible Error SolveOpt
forward_agents lib [] opt = value opt
forward_agents lib (a ∷ agents) opt = elim (lib.connect_agents (a ∷ agents)) [
  | some e ↦ failure e
  | none ↦ value (record opt { agents = a ∷ agents })
]

unfoldable pub new_solve_options :
    SolveLibraries → Bytes → SolveInput → List ExportEntry → Fallible Error SolveOpt
unfolding solve_attributes forward_agents
new_solve_options lib filename i exports = do
  imports ← lib.parse_import_cache i.cache_in
  caches ← lib.parse_export_cache i.cache_out
  forward_agents lib i.ssh (record {
    exports = exports;
    cache_imports = imports;
    cache_exports = caches;
    frontend_attrs = solve_attributes lib.format filename i;
    allowed_entitlements = i.entitlements;
    agents = [];
  })

forward_agents-all :
    (lib : SolveLibraries) (agents : List AgentConfig) (opt o : SolveOpt)
    → opt.agents ≡ []
    → forward_agents lib agents opt ≡ value o
    → (o.agents ≡ agents)
      × (o.exports ≡ opt.exports)
      × (o.allowed_entitlements ≡ opt.allowed_entitlements)
unfolding forward_agents
forward_agents-all lib [] opt o none_yet h =
    let e : opt ≡ o = value-injective h in
    (
      ap (λ x. x.agents) (sym e) ∙ none_yet,
      ap (λ x. x.exports) (sym e),
      ap (λ x. x.allowed_entitlements) (sym e),
    )
forward_agents-all lib (a ∷ agents) opt o none_yet h =
    elim (Option-cases (lib.connect_agents (a ∷ agents))) [
      | inr (x, e) ↦ absurd (let bad = simp (e, forward_agents) at h in cc)
      | inl e ↦
          let k = value-injective (simp (e, forward_agents) at h) in
          (
            ap (λ x. x.agents) (sym k),
            ap (λ x. x.exports) (sym k),
            ap (λ x. x.allowed_entitlements) (sym k),
          )
    ]

-- Where the options of a solve are made, all of the build's SSH agents are forwarded, and the
-- exports and the allowed entitlements are the build's.
pub new_solve_options-agents :
    (lib : SolveLibraries) (filename : Bytes) (i : SolveInput) (exports : List ExportEntry)
    (o : SolveOpt)
    → new_solve_options lib filename i exports ≡ value o
    → (o.agents ≡ i.ssh) × (o.exports ≡ exports) × (o.allowed_entitlements ≡ i.entitlements)
unfolding new_solve_options
new_solve_options-agents lib filename i exports o h =
    let (imports, h1, k1) = >>=-value (lib.parse_import_cache i.cache_in) _ h in
    let (caches, h2, k2) = >>=-value (lib.parse_export_cache i.cache_out) _ k1 in
    forward_agents-all lib i.ssh _ o refl k2
