-- ===== src/Build/Options/Accepted.antt =====
-- What a request of a build is once `parseBuildRequest` has accepted it.
use container_builder_shim.Common.{
  ◌≡◌, refl, subst, Bool, true, ◌||◌, some, List, [], ◌∷◌, map, ◌==◌, bytes_eq, All, if-cases,
  Option-cases, inl, inr, arith,
}
use container_builder_shim.Common.Bytes.{Bytes, codes}
use container_builder_shim.Common.Text.{trim_space, to_lower}
use container_builder_shim.Common.Dict.{lookup}
use container_builder_shim.Common.Fallible.{value, >>=-value}
use container_builder_shim.Build.{Externals, Platform}
use container_builder_shim.Build.Request.{
  Metadata, member, is_empty, values_of, first_metadata_value, last_metadata_value,
  has_metadata_flag, normalized_network_mode, parse_progress, parse_target_platforms,
  decode_dockerfile_inputs, extract_build_contexts, extract_base64_map, extract_ssh_agent_configs,
  extract_entitlements, extract_attestations,
}
use container_builder_shim.Build.Request.Ssh.{
  Fresh, IsForwarded, extract_ssh_agent_configs-Forwarded,
}
use container_builder_shim.Common.Fallible.{value-injective}
use container_builder_shim.Build.Request.Entitlements.{IsAccepted, extract_entitlements-Fresh}
use container_builder_shim.Build.Request.Maps.{last_binding, lookup-extract_string_map}
use container_builder_shim.Build.Options.{
  ParsedBuildFeatures, ParsedBuildRequest, parse_build_features, parse_inputs, parse_build_request,
}

abbrev pub IsNetwork : Bytes → Type 0
IsNetwork mode = member mode ([] ∷ codes "none" ∷ codes "host" ∷ codes "sandbox" ∷ []) ≡ true

abbrev pub IsProgress : Bytes → Type 0
IsProgress p = member p (codes "auto" ∷ codes "tty" ∷ codes "plain" ∷ []) ≡ true

or_right : (a b : Bool) → b ≡ true → (a || b) ≡ true
or_right a b h = ground arith

empty-IsNetwork : IsNetwork []
unfolding bytes_eq
empty-IsNetwork = refl

auto-IsProgress : IsProgress (codes "auto")
unfolding bytes_eq
auto-IsProgress = refl

normalized_network_mode-IsNetwork :
    (raw mode : Bytes) → normalized_network_mode raw ≡ value mode → IsNetwork mode
unfolding normalized_network_mode
normalized_network_mode-IsNetwork raw mode h =
    let m = to_lower (trim_space raw) in
    elim (if-cases (is_empty m || m == codes "default") _ _ h) [
      | inl (_, e) ↦ subst IsNetwork (value-injective e) empty-IsNetwork
      | inr (_, k) ↦
          elim (if-cases (member m (codes "none" ∷ codes "host" ∷ codes "sandbox" ∷ [])) _ _ k) [
            | inl (known, e) ↦ subst IsNetwork (value-injective e) (or_right (m == []) _ known)
            | inr (_, e) ↦ absurd cc
          ]
    ]

parse_progress-IsProgress : (m : Metadata) (p : Bytes) → parse_progress m ≡ value p → IsProgress p
unfolding parse_progress
parse_progress-IsProgress m p h = elim (Option-cases (first_metadata_value (codes "progress") m)) [
  | inl e ↦
      let k = simp (e, parse_progress) at h in subst IsProgress (value-injective k) auto-IsProgress
  | inr (q, e) ↦
      let k = simp (e, parse_progress) at h in
      elim (if-cases (member q (codes "auto" ∷ codes "tty" ∷ codes "plain" ∷ [])) _ _ k) [
        | inl (known, e') ↦ subst IsProgress (value-injective e') known
        | inr (_, e') ↦ absurd cc
      ]
]

-- An accepted request, against the metadata that it came from.
pub record IsRequest (ext : Externals) (m : Metadata) (r : ParsedBuildRequest) : Type 0 where
  pub build_id : first_metadata_value (codes "build-id") m ≡ some r.build_id
  pub tag : first_metadata_value (codes "tag") m ≡ some r.tag
  pub progress : IsProgress r.progress
  pub network : IsNetwork r.features.network
  pub agents_fresh : Fresh [] (map (λ a. a.id) r.features.ssh)
  pub agents : All IsForwarded r.features.ssh
  pub entitlements_fresh : Fresh [] r.features.entitlements
  pub entitlements : All (IsAccepted ext) r.features.entitlements
  pub labels :
      (key : Bytes) → lookup key r.features.labels ≡ last_binding key (values_of (codes "labels") m)
  pub build_args :
      (key : Bytes)
      → lookup key r.features.build_args ≡ last_binding key (values_of (codes "build-args") m)

IsFeatures : Externals → Metadata → ParsedBuildFeatures → Type 0
IsFeatures ext m f =
    IsNetwork f.network
    × Fresh [] (map (λ a. a.id) f.ssh)
    × All IsForwarded f.ssh
    × Fresh [] f.entitlements
    × All (IsAccepted ext) f.entitlements
    × ((key : Bytes) → lookup key f.labels ≡ last_binding key (values_of (codes "labels") m))
    × ((key : Bytes)
        → lookup key f.build_args ≡ last_binding key (values_of (codes "build-args") m))

parse_build_features-IsFeatures :
    (ext : Externals) (m : Metadata) (f : ParsedBuildFeatures)
    → parse_build_features ext m ≡ value f
    → IsFeatures ext m f
unfolding parse_build_features IsFeatures
parse_build_features-IsFeatures ext m f h =
    let (contexts, h1, k1) =
      >>=-value (extract_build_contexts (values_of (codes "build-contexts") m)) _ h in
    let (secrets, h2, k2) =
      >>=-value (extract_base64_map ext (values_of (codes "secrets") m)) _ k1 in
    let (ssh, h3, k3) = >>=-value (extract_ssh_agent_configs (values_of (codes "ssh") m)) _ k2 in
    let (network, h4, k4) =
      >>=-value (normalized_network_mode (last_metadata_value (values_of (codes "network") m))) _
        k3 in
    let (entitlements, h5, k5) =
      >>=-value
        (extract_entitlements ext (values_of (codes "entitlements") m) network
          (has_metadata_flag (codes "privileged") m))
        _ k4 in
    let (attestations, h6, k6) = >>=-value (extract_attestations ext m) _ k5 in
    let (fresh, forwarded, _) =
      extract_ssh_agent_configs-Forwarded (values_of (codes "ssh") m) ssh h3 in
    let (once, accepted, _) =
      extract_entitlements-Fresh ext (values_of (codes "entitlements") m) network
        (has_metadata_flag (codes "privileged") m) entitlements h5 in
    subst (IsFeatures ext m) (value-injective k6) (
      normalized_network_mode-IsNetwork (last_metadata_value (values_of (codes "network") m))
          network h4,
      fresh,
      forwarded,
      once,
      accepted,
      (λ key. lookup-extract_string_map key (values_of (codes "labels") m)),
      (λ key. lookup-extract_string_map key (values_of (codes "build-args") m)),
    )

module _ (ext : Externals) (staging : Bytes) (build_platforms : List Platform) (m : Metadata) where
  parse_inputs-IsRequest :
      (build_id tag : Bytes) (r : ParsedBuildRequest)
      → first_metadata_value (codes "build-id") m ≡ some build_id
      → first_metadata_value (codes "tag") m ≡ some tag
      → parse_inputs ext staging build_platforms build_id tag m ≡ value r
      → IsRequest ext m r
  unfolding parse_inputs IsFeatures
  parse_inputs-IsRequest build_id tag r eb et h =
      let (files, h1, k1) = >>=-value (decode_dockerfile_inputs ext staging m) _ h in
      let (progress, h2, k2) = >>=-value (parse_progress m) _ k1 in
      let (platforms, h3, k3) =
        >>=-value (parse_target_platforms ext (values_of (codes "platforms") m)) _ k2 in
      let (features, h4, k4) = >>=-value (parse_build_features ext m) _ k3 in
      let (network, fresh, forwarded, once, accepted, labels, args) =
        parse_build_features-IsFeatures ext m features h4 in
      subst (IsRequest ext m) (value-injective k4) (record {
        build_id = eb;
        tag = et;
        progress = parse_progress-IsProgress m progress h2;
        network = network;
        agents_fresh = fresh;
        agents = forwarded;
        entitlements_fresh = once;
        entitlements = accepted;
        labels = labels;
        build_args = args;
      })

  -- A request that is accepted has the first build id and the first tag of its metadata, one of
  -- the three progress modes and of the four network modes (none counts as one), SSH agents with
  -- different names and forwarded sockets, different entitlements that the library accepts, and
  -- labels and build arguments in which the last entry for a key counts.
  pub parse_build_request-IsRequest :
      (r : ParsedBuildRequest)
      → parse_build_request ext staging build_platforms m ≡ value r
      → IsRequest ext m r
  unfolding parse_build_request
  parse_build_request-IsRequest r h =
      elim (Option-cases (first_metadata_value (codes "build-id") m)) [
        | inl e ↦ absurd (let k = simp (e, parse_build_request) at h in cc)
        | inr (build_id, e) ↦
            let k = simp (e, parse_build_request) at h in
            elim (Option-cases (first_metadata_value (codes "tag") m)) [
              | inl e' ↦ absurd (let k' = simp e' at k in cc)
              | inr (tag, e') ↦ parse_inputs-IsRequest build_id tag r e e' (simp e' at k)
            ]
      ]
