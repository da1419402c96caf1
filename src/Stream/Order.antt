-- ===== src/Stream/Order.antt =====
-- pkg/stream/processor.go: the order in which a demultiplexer delivers.
use container_builder_shim.Common.{
  ℕ, ◌≡◌, refl, sym, ap, ◌∙◌, true, false, some, List, [], ◌∷◌, ◌++◌, Bool-cases, inl, inr,
  if◌then◌else◌, ◌==◌, nat_eq, arith, append_nil, append_assoc, Bool, none,
}
use container_builder_shim.Common.Dict.{Dict, lookup, insert, lookup-insert}
use container_builder_shim.Stream.{
  Packet, Handler, BaseStage, new_demux, Event, Step, Run, unknown, loads, closed_handler, passes,
  refused, abandoned, accepted, received, recv_cancelled, registered, unsent, context_done, stops,
  sweeps, dropped, enqueued, delivered, quiet, done, steps,
}
use container_builder_shim.Stream.Handlers.{some-injective}

-- What a step puts into the channel of the demultiplexer, and what it takes out of it.
abbrev pub put : ℕ → Event → List Packet
put r (enqueued k c) = if r == k then c ∷ [] else []
put r (dropped _) = []
put r (delivered _ _) = []
put r quiet = []

abbrev pub got : ℕ → Event → List Packet
got r (delivered k c) = if r == k then c ∷ [] else []
got r (enqueued _ _) = []
got r (dropped _) = []
got r quiet = []

abbrev pub all_put : ℕ → List Event → List Packet
all_put r [] = []
all_put r (e ∷ es) = put r e ++ all_put r es

abbrev pub all_got : ℕ → List Event → List Packet
all_got r [] = []
all_got r (e ∷ es) = got r e ++ all_got r es

-- Later the pointer is to a demultiplexer whose channel has these packets, after those taken from
-- it.
abbrev pub Follows : Dict ℕ Handler → ℕ → List Packet → List Packet → Type 0
Follows heap r took all = (h : Handler) × (lookup r heap ≡ some h) × (all ≡ took ++ h.queue)

module _ (heap : Dict ℕ Handler) (r : ℕ) (h : Handler) (before : lookup r heap ≡ some h) where
  unmoved : Follows heap r [] (h.queue ++ [])
  unmoved = (h, before, append_nil h.queue)

  -- After the change of a demultiplexer, this one or another.
  moved :
      (k : ℕ) (old new : Handler) (took more : List Packet)
      → lookup k heap ≡ some old
      → old.queue ++ more ≡ took ++ new.queue
      → Follows
          (insert k new heap)
          r
          (if r == k then took else [])
          (h.queue ++ (if r == k then more else []))
  moved k old new took more here e = elim (Bool-cases (r == k)) [
    | inl f ↦
        let p : r ≡ k = ground arith in
        let same : h ≡ old = some-injective (sym before ∙ ap (λ j. lookup j heap) p ∙ here) in
        rw f (new, lookup-insert r k new heap ∙ rw f refl, ap (λ x. x.queue ++ more) same ∙ e)
    | inr f ↦ rw f (h, lookup-insert r k new heap ∙ rw f before, append_nil h.queue)
  ]

  -- After the insertion under a pointer that was free.
  beside :
      (k : ℕ) (new : Handler)
      → lookup k heap ≡ none
      → Follows (insert k new heap) r [] (h.queue ++ [])
  beside k new free = elim (Bool-cases (r == k)) [
    | inl f ↦
        let p : r ≡ k = ground arith in
        absurd (let bad = sym before ∙ ap (λ j. lookup j heap) p ∙ free in cc)
    | inr f ↦ (h, lookup-insert r k new heap ∙ rw f before, append_nil h.queue)
  ]

both_alike : (b : Bool) (xs : List Packet) → (if b then xs else xs) ≡ xs
both_alike true xs = refl
both_alike false xs = refl

-- Each step takes from the front of the channel and puts at its end.
Step-queue :
    {s t : BaseStage} {e : Event} (r : ℕ) (h : Handler)
    → Step s e t
    → lookup r s.heap ≡ some h
    → Follows t.heap r (got r e) (h.queue ++ put r e)
Step-queue r h (unknown s c _ _) b = unmoved s.heap r h b
Step-queue r h (loads s c k _ _) b = unmoved s.heap r h b
Step-queue r h (closed_handler s c k g _ _ _) b = unmoved s.heap r h b
Step-queue r h (passes s c k g _ _ _) b = unmoved s.heap r h b
Step-queue r h (refused s c k g e _ _ _) b = unmoved s.heap r h b
Step-queue r h (abandoned s c k g _ _ _ _) b = unmoved s.heap r h b
Step-queue r h (accepted s c k g _ here _ _) b =
    let m = moved s.heap r h b k g (record g { queue = g.queue ++ c ∷ [] }) [] (c ∷ []) here refl in
    rw (both_alike (r == k) []) at m
Step-queue r h (received s k c rest g here e) b =
    let m =
      moved s.heap r h b k g (record g { queue = rest }) (c ∷ []) [] here
        (append_nil g.queue ∙ e) in
    rw (both_alike (r == k) []) at m
Step-queue r h (recv_cancelled s k g _ _) b = unmoved s.heap r h b
Step-queue r h (registered s k id filter deletes free) b =
    beside s.heap r h b k (new_demux id filter deletes) free
Step-queue r h (unsent s id) b = unmoved s.heap r h b
Step-queue r h (context_done s k g here) b =
    let m = moved s.heap r h b k g (record g { closed = true }) [] [] here (append_nil g.queue) in
    rw (both_alike (r == k) []) at m
Step-queue r h (stops s _) b = unmoved s.heap r h b
Step-queue r h (sweeps s id _) b = unmoved s.heap r h b

-- Packets leave a demultiplexer's channel in the order in which they were put in, whatever steps
-- all goroutines take, also after the table has lost it or has another one under its id: the
-- demultiplexer is still there, and what was in its channel at first, then what was put in, is what
-- was received from it, then what is left.
pub Run-queue :
    (r : ℕ) (s t : BaseStage) (es : List Event) (h : Handler)
    → Run s es t
    → lookup r s.heap ≡ some h
    → Follows t.heap r (all_got r es) (h.queue ++ all_put r es)
Run-queue r _ _ _ h (done s) b = unmoved s.heap r h b
Run-queue r _ _ _ h (steps s t u e es first rest) b =
    let (g, here, one) = Step-queue r h first b in
    let (last, there, more) = Run-queue r t u es g rest here in
    (
      last,
      there,
      sym (append_assoc h.queue (put r e) (all_put r es))
          ∙ ap (λ q. q ++ all_put r es) one
          ∙ append_assoc (got r e) g.queue (all_put r es)
          ∙ ap (λ q. got r e ++ q) more
          ∙ sym (append_assoc (got r e) (all_got r es) last.queue),
    )
