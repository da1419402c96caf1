-- ===== src/Build/Request/Ssh.antt =====
-- What a request's SSH agents, entitlements and maps are once they are accepted.
use container_builder_shim.Common.Fallible.{value-injective}
use container_builder_shim.Common.{
  suc, ◌≡◌, refl, ap, subst, Bool, true, false, ◌||◌, not, some, List, [], ◌∷◌, map, ◌==◌, bytes_eq,
  length, All, if-cases, Option-cases, inl, inr,
}
use container_builder_shim.Common.Bytes.{Bytes, codes}
use container_builder_shim.Common.Text.{cut, trim_space, equals_sign}
use container_builder_shim.Common.Fallible.{value, >>=-value}
use container_builder_shim.Build.{AgentConfig}
use container_builder_shim.Build.Request.{
  member, is_forwarded_ssh_socket_path, agent_of, agents_from, extract_ssh_agent_configs, is_empty,
}

-- No entry stands twice, nor in the list of those that came before.
abbrev pub Fresh : List Bytes → List Bytes → Type 0
Fresh seen [] = Unit
Fresh seen (v ∷ vs) = (member v seen ≡ false) × Fresh (v ∷ seen) vs

-- The agent has a name, and a path, if it has one, is a forwarded socket.
abbrev pub IsForwarded : AgentConfig → Type 0
IsForwarded a = (is_empty a.id ≡ false) × All (λ p. is_forwarded_ssh_socket_path p ≡ true) a.paths

refused-parts : (a b c : Bool) → (not a || b || not c) ≡ false → (b ≡ false) × (c ≡ true)
refused-parts true false true h = (refl, refl)
refused-parts true true c h = absurd cc
refused-parts true false false h = absurd cc
refused-parts false b c h = absurd cc

some-injective {ℓ} : {A : Type ℓ} {a b : A} → some a ≡ some b → a ≡ b
some-injective h = cc

default_agent : AgentConfig
default_agent = record { id = codes "default"; paths = [] }

default_agent-IsForwarded : IsForwarded default_agent
unfolding default_agent
default_agent-IsForwarded = (refl, tt)

agent_of-IsForwarded : (raw : Bytes) (a : AgentConfig) → agent_of raw ≡ some a → IsForwarded a
unfolding agent_of default_agent
agent_of-IsForwarded raw a h = elim (if-cases (trim_space raw == codes "default") _ _ h) [
  | inl (_, e) ↦ subst IsForwarded (some-injective e) default_agent-IsForwarded
  | inr (_, h') ↦
      let p = cut equals_sign (trim_space raw) in
      let id = trim_space p.0 in
      let path = trim_space p.1 in
      elim (if-cases (not p.2 || is_empty id || not (is_forwarded_ssh_socket_path path)) _ _ h') [
        | inl (_, e) ↦ absurd cc
        | inr (ok, e) ↦
            let (named, forwarded) =
              refused-parts p.2 (is_empty id) (is_forwarded_ssh_socket_path path) ok in
            subst IsForwarded (some-injective e) (named, (forwarded, tt))
      ]
]

agents_from-Fresh :
    (seen values : List Bytes) (agents : List AgentConfig)
    → agents_from seen values ≡ value agents
    → Fresh seen (map (λ a. a.id) agents) × All IsForwarded agents × (length agents ≡ length values)
unfolding agents_from
agents_from-Fresh seen [] [] h = (tt, tt, refl)
agents_from-Fresh seen [] (_ ∷ _) h = absurd cc
agents_from-Fresh seen (raw ∷ values) agents h = elim (Option-cases (agent_of raw)) [
  | inl e ↦ absurd (let k = simp (e, agents_from) at h in cc)
  | inr (a, e) ↦
      let k = simp (e, agents_from) at h in
      elim (if-cases (member a.id seen) _ _ k) [
        | inl (_, bad) ↦ absurd cc
        | inr (new, k') ↦
            let (later, more, whole) = >>=-value (agents_from (a.id ∷ seen) values) _ k' in
            let (fresh, forwarded, lengths) = agents_from-Fresh (a.id ∷ seen) values later more in
            subst
              (λ as'.
                Fresh seen (map (λ b. b.id) as')
                × All IsForwarded as'
                × (length as' ≡ suc (length values)))
              (value-injective whole)
              ((new, fresh), (agent_of-IsForwarded raw a e, forwarded), ap suc lengths)
      ]
]

-- A request's SSH agents are accepted only if no two of them have the same name, each has a name,
-- and each path, where one is given, is a forwarded socket; then there is one agent for each value.
pub extract_ssh_agent_configs-Forwarded :
    (values : List Bytes) (agents : List AgentConfig)
    → extract_ssh_agent_configs values ≡ value agents
    → Fresh [] (map (λ a. a.id) agents) × All IsForwarded agents × (length agents ≡ length values)
unfolding extract_ssh_agent_configs
extract_ssh_agent_configs-Forwarded values agents h = agents_from-Fresh [] values agents h
