-- ===== src/Stream/Handlers.antt =====
-- pkg/stream/stage.go and processor.go: what the demultiplexers of a stage hold.
use container_builder_shim.Common.{
  ℕ, suc, ◌≤◌, ◌≡◌, refl, sym, ap, ◌∙◌, subst, true, none, some, List, [], ◌∷◌, ◌++◌, All, inl, inr,
  ◌==◌, bytes_eq, nat_eq, length, arith, All-append, Bool-cases, Bool, of_equal,
}
use container_builder_shim.Common.Bytes.{Bytes}
use container_builder_shim.Common.Dict.{
  Dict, lookup, insert, erase, lookup-insert, lookup-erase_cases, lookup-insert_cases,
}
use container_builder_shim.Stream.{
  Packet, FilterFn, Handler, BaseStage, Runner, idle, loaded, checked, stopping, channel_size,
  new_demux, close_fn, Event, Step, unknown, loads, closed_handler, passes, refused, abandoned,
  accepted, received, recv_cancelled, registered, unsent, context_done, stops, sweeps,
}

-- A demultiplexer's channel is not over-full, and holds only packets of its build which its filter
-- accepts.
pub record IsValid (h : Handler) : Type 0 where
  pub room : length h.queue ≤ channel_size
  pub own : All (λ c. c.build_id ≡ h.id) h.queue
  pub filtered : All (λ c. h.filter c ≡ none) h.queue

-- The pointer is to a demultiplexer of that build.
abbrev pub PointsTo : Dict ℕ Handler → ℕ → Bytes → Type 0
PointsTo heap r id = (h : Handler) × (lookup r heap ≡ some h) × (h.id ≡ id)

abbrev pub Holds : Dict ℕ Handler → Runner → Type 0
Holds heap idle = Unit
Holds heap (loaded r c) = PointsTo heap r c.build_id
Holds heap (checked r c) = PointsTo heap r c.build_id
Holds heap stopping = Unit

pub record IsConsistent (s : BaseStage) : Type 0 where
  pub listed : (id : Bytes) (r : ℕ) → lookup id s.demux ≡ some r → PointsTo s.heap r id
  pub valid : (r : ℕ) (h : Handler) → lookup r s.heap ≡ some h → IsValid h
  pub held : Holds s.heap s.runner

pub some-injective : {a b : Handler} → some a ≡ some b → a ≡ b
some-injective h = cc

length-snoc : (xs : List Packet) (c : Packet) → length (xs ++ c ∷ []) ≡ suc (length xs)
length-snoc [] c = refl
length-snoc (x ∷ xs) c = ap suc (length-snoc xs c)

-- A pointer stays good where a demultiplexer is replaced by one of the same build, or by a new one.
PointsTo-insert :
    (heap : Dict ℕ Handler) (k r : ℕ) (new : Handler) (id : Bytes)
    → ((old : Handler) → lookup k heap ≡ some old → old.id ≡ new.id)
    → PointsTo heap r id
    → PointsTo (insert k new heap) r id
PointsTo-insert heap k r new id same (h, e, f) = elim (Bool-cases (r == k)) [
  | inl g ↦
      let p : r ≡ k = ground arith in
      (
        new,
        lookup-insert r k new heap ∙ rw g refl,
        sym (same h (ap (λ j. lookup j heap) (sym p) ∙ e)) ∙ f,
      )
  | inr g ↦ (h, lookup-insert r k new heap ∙ rw g e, f)
]

Holds-insert :
    (heap : Dict ℕ Handler) (k : ℕ) (new : Handler) (runner : Runner)
    → ((old : Handler) → lookup k heap ≡ some old → old.id ≡ new.id)
    → Holds heap runner
    → Holds (insert k new heap) runner
Holds-insert heap k new idle same held = tt
Holds-insert heap k new stopping same held = tt
Holds-insert heap k new (loaded r c) same held = PointsTo-insert heap k r new c.build_id same held
Holds-insert heap k new (checked r c) same held = PointsTo-insert heap k r new c.build_id same held

IsValid-insert :
    (heap : Dict ℕ Handler) (k : ℕ) (new : Handler)
    → IsValid new
    → ((r : ℕ) (h : Handler) → lookup r heap ≡ some h → IsValid h)
    → (r : ℕ) (h : Handler) → lookup r (insert k new heap) ≡ some h
    → IsValid h
IsValid-insert heap k new v valid r h e = elim (lookup-insert_cases r k new h heap e) [
  | inl (_, same) ↦ subst IsValid same v
  | inr old ↦ valid r h old
]

-- Another table, each entry of which the first one has.
pub with_demux :
    (s : BaseStage) (demux : Dict Bytes ℕ) (runner : Runner)
    → ((id : Bytes) (r : ℕ) → lookup id demux ≡ some r → lookup id s.demux ≡ some r)
    → Holds s.heap runner
    → IsConsistent s
    → IsConsistent (record s { demux = demux; runner = runner })
with_demux s demux runner fewer held v = record {
  listed = λ id r e. v.listed id r (fewer id r e);
  valid = v.valid;
  held = held;
}

erase-fewer :
    (k : Bytes) (demux : Dict Bytes ℕ) (id : Bytes) (r : ℕ)
    → lookup id (erase k demux) ≡ some r
    → lookup id demux ≡ some r
erase-fewer k demux id r e = (lookup-erase_cases id k r demux e).1

close_fn-fewer :
    (h : Handler) (demux : Dict Bytes ℕ) (id : Bytes) (r : ℕ)
    → lookup id (close_fn h demux) ≡ some r
    → lookup id demux ≡ some r
unfolding close_fn
close_fn-fewer h demux id r e = elim (Bool-cases h.deletes) [
  | inl f ↦ erase-fewer h.id demux id r (simp f at e)
  | inr f ↦ simp f at e
]

-- A demultiplexer in the heap changes to a valid one of the same build.
changed :
    (s : BaseStage) (r : ℕ) (h new : Handler) (runner : Runner)
    → lookup r s.heap ≡ some h
    → h.id ≡ new.id
    → IsValid new
    → Holds s.heap runner
    → IsConsistent s
    → IsConsistent (record s { heap = insert r new s.heap; runner = runner })
changed s r h new runner here same ok held v =
    let keeps : (old : Handler) → lookup r s.heap ≡ some old → old.id ≡ new.id =
      λ old e. ap (λ x. x.id) (some-injective (sym e ∙ here)) ∙ same in
    record {
      listed = λ id k e. PointsTo-insert s.heap r k new id keeps (v.listed id k e);
      valid = IsValid-insert s.heap r new ok v.valid;
      held = Holds-insert s.heap r new runner keeps held;
    }

put_last-IsValid :
    (h : Handler) (c : Packet)
    → IsValid h
    → c.build_id ≡ h.id
    → h.filter c ≡ none
    → suc (length h.queue) ≤ channel_size
    → IsValid (record h { queue = h.queue ++ c ∷ [] })
put_last-IsValid h c v own ok room = record {
  room = omega (arith, length-snoc h.queue c);
  own = All-append (λ x. x.build_id ≡ h.id) h.queue (c ∷ []) v.own (own, tt);
  filtered = All-append (λ x. h.filter x ≡ none) h.queue (c ∷ []) v.filtered (ok, tt);
}

popped-IsValid :
    (h : Handler) (c : Packet) (rest : List Packet)
    → h.queue ≡ c ∷ rest
    → IsValid h
    → IsValid (record h { queue = rest })
popped-IsValid h c rest e v = record {
  room = omega (arith, subst (λ q. length q ≤ channel_size) e v.room);
  own = (subst (All (λ x. x.build_id ≡ h.id)) e v.own).1;
  filtered = (subst (All (λ x. h.filter x ≡ none)) e v.filtered).1;
}

-- What the goroutine of `Run` has, once it is known where it stands.
held_at :
    {s : BaseStage} {runner : Runner} → s.runner ≡ runner → IsConsistent s → Holds s.heap runner
held_at {s} e v = subst (Holds s.heap) e v.held

named_after :
    (heap : Dict ℕ Handler) (r : ℕ) (id : Bytes) (h : Handler)
    → lookup r heap ≡ some h
    → PointsTo heap r id
    → h.id ≡ id
named_after heap r id h here (g, e, f) = ap (λ x. x.id) (some-injective (sym here ∙ e)) ∙ f

-- A new demultiplexer under a free pointer.
registered-IsConsistent :
    (s : BaseStage) (r : ℕ) (id : Bytes) (filter : FilterFn) (deletes : Bool)
    → lookup r s.heap ≡ none
    → IsConsistent s
    → IsConsistent (record s {
      heap = insert r (new_demux id filter deletes) s.heap;
      demux = insert id r s.demux;
    })
unfolding new_demux
registered-IsConsistent s r id filter deletes free v =
    let new : Handler = new_demux id filter deletes in
    let keeps : (old : Handler) → lookup r s.heap ≡ some old → old.id ≡ new.id =
      λ old e. absurd (let bad = sym e ∙ free in cc) in
    record {
      listed = λ j k e. elim (lookup-insert_cases j id r k s.demux e) [
        | inl (same, at) ↦
            subst (λ x. PointsTo (insert r new s.heap) x j) at
              (new, lookup-insert r r new s.heap ∙ rw (of_equal r r refl) refl, sym same)
        | inr old ↦ PointsTo-insert s.heap r k new j keeps (v.listed j k old)
      ];
      valid =
          IsValid-insert s.heap r new (record { room = omega arith; own = tt; filtered = tt })
            v.valid;
      held = Holds-insert s.heap r new s.runner keeps v.held;
    }

-- Every step, at whatever point the other goroutines are and whatever demultiplexers are registered
-- over others, keeps a stage consistent: each entry of the table, and the pointer that `Run` has
-- loaded for a packet, is to a demultiplexer of that build; and every demultiplexer that was ever
-- made holds at most 32 packets, each of which is of its build and passes its filter.
pub Step-IsConsistent : {s t : BaseStage} {e : Event} → Step s e t → IsConsistent s → IsConsistent t
Step-IsConsistent (unknown s c _ _) v = v
Step-IsConsistent (loads s c r at e) v =
    with_demux s s.demux (loaded r c) (λ _ _ f. f) (v.listed c.build_id r e) v
Step-IsConsistent (closed_handler s c r h at here _) v =
    with_demux s (erase h.id s.demux) idle (erase-fewer h.id s.demux) tt v
Step-IsConsistent (passes s c r h at here _) v =
    with_demux s s.demux (checked r c) (λ _ _ f. f) (held_at at v) v
Step-IsConsistent (refused s c r h e at here _) v = with_demux s s.demux idle (λ _ _ f. f) tt v
Step-IsConsistent (abandoned s c r h at here _ _) v =
    with_demux s (close_fn h s.demux) idle (close_fn-fewer h s.demux) tt v
Step-IsConsistent (accepted s c r h at here ok room) v =
    let own = named_after s.heap r c.build_id h here (held_at at v) in
    changed s r h (record h { queue = h.queue ++ c ∷ [] }) idle here refl
      (put_last-IsValid h c (v.valid r h here) (sym own) ok (omega (arith, room))) tt v
Step-IsConsistent (received s r c rest h here e) v =
    changed s r h (record h { queue = rest }) s.runner here refl
      (popped-IsValid h c rest e (v.valid r h here)) v.held v
Step-IsConsistent (recv_cancelled s r h here _) v =
    with_demux s (close_fn h s.demux) s.runner (close_fn-fewer h s.demux) v.held v
Step-IsConsistent (registered s r id filter deletes free) v =
    registered-IsConsistent s r id filter deletes free v
Step-IsConsistent (unsent s id) v =
    with_demux s (erase id s.demux) s.runner (erase-fewer id s.demux) v.held v
Step-IsConsistent (context_done s r h here) v =
    let ok = v.valid r h here in
    changed s r h (record h { closed = true }) s.runner here refl
      (record { room = ok.room; own = ok.own; filtered = ok.filtered }) v.held v
Step-IsConsistent (stops s _) v = with_demux s s.demux stopping (λ _ _ f. f) tt v
Step-IsConsistent (sweeps s id _) v =
    with_demux s (erase id s.demux) s.runner (erase-fewer id s.demux) v.held v
