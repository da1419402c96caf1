-- ===== src/Build/Options/Attributes.antt =====
-- pkg/build/buildopts.go: what the frontend reads in the attributes of a build.
use container_builder_shim.Common.{
  ℕ, ◌≡◌, ◌≢◌, refl, sym, ap, ◌∙◌, true, false, Option, none, some, List, [], ◌∷◌, ◌++◌, ◌==◌,
  bytes_eq, Bool-cases, inl, inr, arith,
}
use container_builder_shim.Common.Bytes.{Bytes, codes}
use container_builder_shim.Common.Text.{join}
use container_builder_shim.Common.Dict.{lookup, insert, NodupKeys, lookup-insert}
use container_builder_shim.Build.{Strings}
use container_builder_shim.Build.Options.{
  FrontendOptions, contexts_onto, set_text, set_list, set_option, dockerfile_frontend_attrs,
}

-- The key of a named build context.
abbrev pub context_key : Bytes → Bytes
context_key name = codes "context:" ++ name

heads_differ : (a b : ℕ) (s t : Bytes) → a ≢ b → ((a ∷ s) == (b ∷ t)) ≡ false
heads_differ a b s t h = elim (Bool-cases ((a ∷ s) == (b ∷ t))) [
  | inl e ↦ absurd (let p : (a ∷ s) ≡ (b ∷ t) = ground arith in h cc)
  | inr e ↦ e
]

lookup-set_text :
    (key at text : Bytes) (attrs : Strings)
    → (key == at) ≡ false
    → lookup key (set_text at text attrs) ≡ lookup key attrs
lookup-set_text key at [] attrs h = refl
lookup-set_text key at (c ∷ s) attrs h = lookup-insert key at (c ∷ s) attrs ∙ rw h refl

lookup-set_list :
    (key at : Bytes) (vs : List Bytes) (attrs : Strings)
    → (key == at) ≡ false
    → lookup key (set_list at vs attrs) ≡ lookup key attrs
lookup-set_list key at [] attrs h = refl
lookup-set_list key at (v ∷ vs) attrs h =
    lookup-insert key at (join (codes ",") (v ∷ vs)) attrs ∙ rw h refl

lookup-set_option :
    (key at : Bytes) (o : Option Bytes) (attrs : Strings)
    → (key == at) ≡ false
    → lookup key (set_option at o attrs) ≡ lookup key attrs
lookup-set_option key at none attrs h = refl
lookup-set_option key at (some v) attrs h = lookup-insert key at v attrs ∙ rw h refl

equal : (a b : Bytes) → (a == b) ≡ true → a ≡ b
equal a b h = ground arith

equal_self : (a b : Bytes) → a ≡ b → (a == b) ≡ true
equal_self a b h = ground arith

same_context : (a b : Bytes) → (context_key a == context_key b) ≡ (a == b)
same_context a b = elim (Bool-cases (a == b)) [
  | inl e ↦ equal_self (context_key a) (context_key b) (ap context_key (equal a b e)) ∙ sym e
  | inr e ↦ elim (Bool-cases (context_key a == context_key b)) [
    | inr f ↦ f ∙ sym e
    | inl f ↦
        let p = equal (context_key a) (context_key b) f in
        let q : a ≡ b = cc in absurd (let bad = equal_self a b q in cc)
  ]
]

-- The context of that name, or what stood there before.
abbrev pub context_or : Option Bytes → Option Bytes → Option Bytes
context_or (some v) before = some v
context_or none before = before

context_or-none : (o : Option Bytes) → context_or o none ≡ o
context_or-none none = refl
context_or-none (some _) = refl

lookup-contexts_onto :
    (name : Bytes) (attrs contexts : Strings)
    → NodupKeys contexts
    → lookup (context_key name) (contexts_onto attrs contexts)
      ≡ context_or (lookup name contexts) (lookup (context_key name) attrs)
unfolding contexts_onto lookup
lookup-contexts_onto name attrs [] h = refl
lookup-contexts_onto name attrs ((other, source) ∷ contexts) h =
    let later = lookup-contexts_onto name (insert (context_key other) source attrs) contexts h.1 in
    let here = lookup-insert (context_key name) (context_key other) source attrs in
    elim (Bool-cases (name == other)) [
      | inl e ↦
          let absent : lookup name contexts ≡ none =
            ap (λ k. lookup k contexts) (equal name other e) ∙ h.0 in
          later ∙ rw (absent, here, same_context name other, e) refl
      | inr e ↦ later ∙ rw (here, same_context name other, e) refl
    ]

lookup-contexts_onto-other :
    (key : Bytes) (attrs contexts : Strings)
    → ((name : Bytes) → (key == context_key name) ≡ false)
    → lookup key (contexts_onto attrs contexts) ≡ lookup key attrs
unfolding contexts_onto
lookup-contexts_onto-other key attrs [] h = refl
lookup-contexts_onto-other key attrs ((other, source) ∷ contexts) h =
    lookup-contexts_onto-other key (insert (context_key other) source attrs) contexts h
    ∙ lookup-insert key (context_key other) source attrs
    ∙ rw (h other) refl

-- A text that is not empty.
abbrev pub given : Bytes → Option Bytes
given [] = none
given (c ∷ s) = some (c ∷ s)

lookup-set_text_self :
    (at text : Bytes) (attrs : Strings)
    → lookup at attrs ≡ none
    → lookup at (set_text at text attrs) ≡ given text
lookup-set_text_self at [] attrs h = h
lookup-set_text_self at (c ∷ s) attrs h =
    lookup-insert at at (c ∷ s) attrs ∙ rw (equal_self at at refl) refl

lookup-set_option_self :
    (at : Bytes) (o : Option Bytes) (attrs : Strings)
    → lookup at attrs ≡ none
    → lookup at (set_option at o attrs) ≡ o
lookup-set_option_self at none attrs h = h
lookup-set_option_self at (some v) attrs h =
    lookup-insert at at v attrs ∙ rw (equal_self at at refl) refl

network-filename : (codes "force-network-mode" == codes "filename") ≡ false
unfolding bytes_eq
network-filename = refl

no_cache-filename : (codes "no-cache" == codes "filename") ≡ false
unfolding bytes_eq
no_cache-filename = refl

module _ (filename : Bytes) (b : FrontendOptions) where
  abbrev named : Strings
  named = contexts_onto (insert (codes "filename") filename []) b.build_contexts

  -- A key that is none of those set before the contexts is not in their attributes.
  lookup-named :
      (key : Bytes)
      → ((name : Bytes) → (key == context_key name) ≡ false)
      → (key == codes "filename") ≡ false
      → lookup key named ≡ none
  unfolding insert lookup
  lookup-named key other file =
      lookup-contexts_onto-other key (insert (codes "filename") filename []) b.build_contexts other
      ∙ rw file refl

  abbrev hosted : Strings
  hosted = set_list (codes "add-hosts") b.add_hosts named

  abbrev sized : Strings
  sized =
      set_text (codes "shm-size") b.shm_size
        (set_text (codes "force-network-mode") b.network hosted)

  -- The keys that are set after the network mode do not change another key.
  lookup-sized :
      (key : Bytes)
      → (key == codes "no-cache") ≡ false
      → (key == codes "ulimit") ≡ false
      → lookup key (dockerfile_frontend_attrs filename b) ≡ lookup key sized
  unfolding dockerfile_frontend_attrs
  lookup-sized key n u =
      lookup-set_option key (codes "no-cache") b.no_cache
        (set_list (codes "ulimit") b.ulimits sized) n
      ∙ lookup-set_list key (codes "ulimit") b.ulimits sized u

  lookup-context :
      (name : Bytes)
      → NodupKeys b.build_contexts
      → lookup (context_key name) (dockerfile_frontend_attrs filename b)
        ≡ lookup name b.build_contexts
  unfolding insert lookup
  lookup-context name h =
      let key = context_key name in
      lookup-sized key (heads_differ _ _ _ _ (omega arith)) (heads_differ _ _ _ _ (omega arith))
      ∙ lookup-set_text key (codes "shm-size") b.shm_size
          (set_text (codes "force-network-mode") b.network hosted)
          (heads_differ _ _ _ _ (omega arith))
      ∙ lookup-set_text key (codes "force-network-mode") b.network hosted
          (heads_differ _ _ _ _ (omega arith))
      ∙ lookup-set_list key (codes "add-hosts") b.add_hosts named
          (heads_differ _ _ _ _ (omega arith))
      ∙ lookup-contexts_onto name (insert (codes "filename") filename []) b.build_contexts h
      ∙ rw (heads_differ 99 102 (codes "ontext:" ++ name) (codes "ilename") (omega arith))
          (context_or-none (lookup name b.build_contexts))

  lookup-network :
      lookup (codes "force-network-mode") (dockerfile_frontend_attrs filename b) ≡ given b.network
  lookup-network =
      let key = codes "force-network-mode" in
      lookup-sized key (heads_differ _ _ _ _ (omega arith)) (heads_differ _ _ _ _ (omega arith))
      ∙ lookup-set_text key (codes "shm-size") b.shm_size (set_text key b.network hosted)
          (heads_differ _ _ _ _ (omega arith))
      ∙ lookup-set_text_self key b.network hosted (
          lookup-set_list key (codes "add-hosts") b.add_hosts named
            (heads_differ _ _ _ _ (omega arith))
          ∙ lookup-named key (λ name. heads_differ _ _ _ _ (omega arith)) network-filename)

  lookup-no_cache : lookup (codes "no-cache") (dockerfile_frontend_attrs filename b) ≡ b.no_cache
  unfolding dockerfile_frontend_attrs
  lookup-no_cache =
      let key = codes "no-cache" in
      lookup-set_option_self key b.no_cache (set_list (codes "ulimit") b.ulimits sized) (
        lookup-set_list key (codes "ulimit") b.ulimits sized (heads_differ _ _ _ _ (omega arith))
        ∙ lookup-set_text key (codes "shm-size") b.shm_size
            (set_text (codes "force-network-mode") b.network hosted)
            (heads_differ _ _ _ _ (omega arith))
        ∙ lookup-set_text key (codes "force-network-mode") b.network hosted
            (heads_differ _ _ _ _ (omega arith))
        ∙ lookup-set_list key (codes "add-hosts") b.add_hosts named
            (heads_differ _ _ _ _ (omega arith))
        ∙ lookup-named key (λ name. heads_differ _ _ _ _ (omega arith)) no_cache-filename)

-- The frontend finds each named context under `context:` and its name, and no other; the network
-- mode under `force-network-mode` unless it is empty; and `no-cache` where it is given. The
-- contexts are a map: no name stands twice in the list.
pub lookup-dockerfile_frontend_attrs :
    (filename : Bytes) (b : FrontendOptions)
    → NodupKeys b.build_contexts
    → ((name : Bytes)
        → lookup (context_key name) (dockerfile_frontend_attrs filename b)
          ≡ lookup name b.build_contexts)
      × (lookup (codes "force-network-mode") (dockerfile_frontend_attrs filename b)
          ≡ given b.network)
      × (lookup (codes "no-cache") (dockerfile_frontend_attrs filename b) ≡ b.no_cache)
lookup-dockerfile_frontend_attrs filename b h = (
  (λ name. lookup-context filename b name h),
  lookup-network filename b,
  lookup-no_cache filename b,
)
