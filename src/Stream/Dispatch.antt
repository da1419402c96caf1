-- ===== src/Stream/Dispatch.antt =====
-- pkg/stream/filter.go and pipeline.go: chains of filters, and which stage takes a packet.
use container_builder_shim.Common.{
  ◌≡◌, refl, Bool, true, false, none, some, List, [], ◌∷◌, ◌++◌, All, Option-cases, inl, inr, ◌↔◌,
}
use container_builder_shim.Stream.{Packet, FilterFn, filter_chain, Inlet, dispatch, Error}

-- A chain accepts a packet only if each of its filters accepts it.
filter_chain-All :
    (fs : List FilterFn) (c : Packet) → filter_chain fs c ≡ none → All (λ f. f c ≡ none) fs
unfolding filter_chain
filter_chain-All [] c h = tt
filter_chain-All (f ∷ fs) c h = elim (Option-cases (f c)) [
  | inl e ↦ (e, filter_chain-All fs c (simp (e, filter_chain) at h))
  | inr (x, e) ↦ absurd (let bad = simp (e, filter_chain) at h in cc)
]

All-filter_chain :
    (fs : List FilterFn) (c : Packet) → All (λ f. f c ≡ none) fs → filter_chain fs c ≡ none
unfolding filter_chain
All-filter_chain [] c h = refl
All-filter_chain (f ∷ fs) c (h, hs) = rw (h, filter_chain) (All-filter_chain fs c hs)

-- A chain of filters accepts a packet exactly if each of its filters does.
pub filter_chain-none :
    (fs : List FilterFn) (c : Packet) → (filter_chain fs c ≡ none) ↔ All (λ f. f c ≡ none) fs
filter_chain-none fs c = (filter_chain-All fs c, All-filter_chain fs c)

-- The stage refuses the packet.
abbrev pub IsRefusing : Packet → Inlet → Type 0
IsRefusing c x = (e : Error) × (x.filter c ≡ some e)

-- The packet goes to the first stage that accepts it, or nowhere.
pub data Dispatched (c : Packet) : List Inlet → List Inlet → Bool → Type 0 where
  nowhere : (stages : List Inlet) → All (IsRefusing c) stages → Dispatched c stages stages false
  to_first :
      (before after : List Inlet) (x : Inlet)
      → All (IsRefusing c) before
      → x.filter c ≡ none
      → Dispatched c
          (before ++ x ∷ after)
          (before ++ (record x { recv = x.recv ++ c ∷ [] }) ∷ after)
          true

Dispatched-later :
    (c : Packet) (x : Inlet) {stages later : List Inlet} {taken : Bool}
    → IsRefusing c x
    → Dispatched c stages later taken
    → Dispatched c (x ∷ stages) (x ∷ later) taken
Dispatched-later c x r (nowhere stages h) = nowhere (x ∷ stages) (r, h)
Dispatched-later c x r (to_first before after y h k) = to_first (x ∷ before) after y (r, h) k

-- A packet is put at the end of the channel of the first stage whose filter accepts it, and of no
-- other; where every filter refuses it, no stage changes and the packet counts as not handled.
pub dispatch-Dispatched :
    (c : Packet) (stages : List Inlet)
    → Dispatched c stages (dispatch c stages).0 (dispatch c stages).1
unfolding dispatch
dispatch-Dispatched c [] = nowhere [] tt
dispatch-Dispatched c (x ∷ stages) = elim (Option-cases (x.filter c)) [
  | inl e ↦ rw (e, dispatch) (to_first [] stages x tt e)
  | inr (y, e) ↦ rw (e, dispatch) (Dispatched-later c x (y, e) (dispatch-Dispatched c stages))
]
