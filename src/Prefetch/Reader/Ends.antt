-- ===== src/Prefetch/Reader/Ends.antt =====
-- pkg/prefetch/prefetch.go: where `ReadAt` starts and ends: its early returns, the test for a
-- range that passes the end, the number of chunks and the last error.
use Prim.Native.Nat.{min}
use container_builder_shim.Common.{
  ℕ, suc, ◌+◌, ◌-◌, ◌*◌, ◌/◌, ◌%◌, ◌≤◌, ◌<◌, ◌≡◌, ◌≢◌, refl, sym, ap, subst, ◌∙◌, List, arith,
  length, take, drop, Bool, true, false, ◌&&◌, none, some, if◌then◌else◌, ltb, leb, Bool-cases,
  Option-cases, inl, inr, nat_eq, ◌==◌, length-take, length-drop, dec_le,
}
use native.Mathlib.Nat.{div-add-mod, mod-lt}
use container_builder_shim.Common.Int.{ℤ, pos, ltb_ℤ, leb_ℤ, ◌+ℤ◌, i64_half, +ℤ_small}
use container_builder_shim.Common.Bytes.{Bytes}
use container_builder_shim.Common.Dict.{Dict}
use container_builder_shim.Prefetch.Cache.{Chunk}
use container_builder_shim.Prefetch.Reader.{
  Error, eof, Flight, Background, Copied, Prefetcher, accepted, is_cut, final_error, read_range,
  read_at, refused, validate_read,
}

mul_le_split : (x a c : ℕ) → x * c ≤ a * c + (x - a) * c
mul_le_split x a c = elim (dec_le a x) [
  | yes h ↦
      let e : x ≡ a + (x - a) = omega arith in
      subst (λ y. y * c ≤ a * c + (x - a) * c) (sym e) (omega arith)
  | no h ↦ grind arith
]

-- The rounds of the copy reach the last byte that is asked for.
pub rounds_cover :
    (size offset len : ℕ)
    → 0 < size
    → 0 < len
    → len + offset % size ≤ (suc ((offset + len - 1) / size) - offset / size) * size
rounds_cover size offset len s l = omega (
  arith,
  mul_le_split (suc ((offset + len - 1) / size)) (offset / size) size,
  div-add-mod offset size,
  div-add-mod (offset + len - 1) size,
  mod-lt (offset + len - 1) s,
)

and_false : (a b c : Bool) → (a && b && c && false) ≡ false
and_false false b c = refl
and_false true false c = refl
and_false true true false = refl
and_false true true true = refl

false_second : (a b c : Bool) → (a && false && b && c) ≡ false
false_second false b c = refl
false_second true false c = refl
false_second true true c = refl

pub several_chunks :
    (size : ℤ) (offset len start end : ℕ)
    → start < end
    → is_cut size offset len start (pos end) ≡ false
unfolding is_cut
several_chunks size offset len start end h =
    let e : leb (end + 0) (start + 0) ≡ false = ground arith in
    rw e (
      and_false (ltb_ℤ (pos 0) size) (ltb_ℤ size (pos offset +ℤ pos len))
        (leb_ℤ (pos start) (pos end)))

validate_inside :
    (n len offset : ℕ) → 0 < len → offset < n → validate_read (pos n) len (pos offset) ≡ none
unfolding validate_read
validate_inside n len offset l h = ground arith

pub within_content :
    (n offset len start end : ℕ)
    → offset + len < i64_half
    → offset + len ≤ n
    → is_cut (pos n) offset len start (pos end) ≡ false
unfolding is_cut
within_content n offset len start end small h =
    let e : ltb (n + 0) (offset + len + 0) ≡ false = ground arith in
    rw (+ℤ_small offset len small, e)
      (false_second (ltb 0 (n + 0)) (leb_ℤ (pos start) (pos end)) (leb_ℤ (pos end) (pos start)))

pub cut_within :
    (n offset len start end : ℕ)
    → offset + len < i64_half
    → n < offset + len
    → start ≡ end
    → 0 < n
    → is_cut (pos n) offset len start (pos end) ≡ true
unfolding is_cut
cut_within n offset len start end small h one some_bytes =
    let a : ltb 0 (n + 0) ≡ true = ground arith in
    let b : ltb (n + 0) (offset + len + 0) ≡ true = ground arith in
    let c : leb (start + 0) (end + 0) ≡ true = ground arith in
    let d : leb (end + 0) (start + 0) ≡ true = ground arith in
    rw (+ℤ_small offset len small, a, b, c, d) refl

pub not_refused :
    (p : Prefetcher) (len offset n : ℕ)
    → p.closed ≡ false
    → p.size ≡ pos n
    → 0 < len
    → offset < n
    → refused p len (pos offset) ≡ none
unfolding refused
not_refused p len offset n unlocked size l h =
    let e : (len == 0) ≡ false = ground arith in
    let v : validate_read p.size len (pos offset) ≡ none =
      subst (λ s. validate_read s len (pos offset) ≡ none) (sym size)
        (validate_inside n len offset l h) in
    rw (unlocked, v, e) refl

pub open_read :
    (shuffle : Dict ℕ Chunk → Dict ℕ Chunk) (flight : ℕ → Flight) (others : ℕ → List Background)
    (p : Prefetcher) (len offset : ℕ)
    → refused p len (pos offset) ≡ none
    → read_at shuffle flight others p len (pos offset)
      ≡ read_range shuffle flight others p len offset
unfolding read_at
open_read shuffle flight others p len offset e = rw (e, read_at) refl

accepted-eof : (x : Error) → accepted (some x) ≡ true → x ≡ eof
accepted-eof eof h = refl
accepted-eof _ h = absurd cc

pub fine_copy :
    (size : ℤ) (offset : ℕ) (r : Copied)
    → r.error ≢ some eof
    → accepted (final_error size offset r) ≡ true
    → r.error ≡ none
unfolding final_error
fine_copy size offset r no_eof fine = elim (Option-cases r.error) [
  | inl e ↦ e
  | inr (x, e) ↦
      let shown : final_error size offset r ≡ some x = rw e refl in
      absurd (no_eof (e ∙ ap some (accepted-eof x (sym (ap accepted shown) ∙ fine))))
]

at_end :
    (n a len l : ℕ)
    → l ≡ min len (n - a)
    → a < n
    → (ltb 0 (n + 0) && leb (n + 0) (a + l + 0)) ≡ leb n (a + len)
at_end n a len l e h =
    let some_bytes : ltb 0 (n + 0) ≡ true = ground arith in
    elim (Bool-cases (leb n (a + len))) [
      | inl f ↦
          let g : leb (n + 0) (a + l + 0) ≡ true =
            let k : n ≤ a + len = ground arith in ground arith in
          rw (some_bytes, f, g) refl
      | inr f ↦
          let g : leb (n + 0) (a + l + 0) ≡ false =
            let k : a + len < n = ground arith in ground arith in
          rw (some_bytes, f, g) refl
    ]

pub end_error :
    (content : Bytes) (size : ℤ) (offset len : ℕ) (r : Copied)
    → size ≡ pos (length content)
    → offset < length content
    → offset + len < i64_half
    → r.error ≡ none
    → r.bytes ≡ take len (drop offset content)
    → final_error size offset r ≡ (if leb (length content) (offset + len) then some eof else none)
unfolding final_error
end_error content size offset len r z h small e b =
    let l = length-take len (drop offset content) in
    rw
      (e, b, z, +ℤ_small offset (length (take len (drop offset content))) (omega (arith, l, small)))
      (ap (λ t. if t then some eof else none)
        (at_end (length content) offset len (length (take len (drop offset content)))
          (l ∙ ap (min len) (length-drop offset content)) h))
