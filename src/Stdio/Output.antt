-- ===== src/Stdio/Output.antt =====
-- pkg/stdio/stdio.go: what a write sends.
use container_builder_shim.Common.{
  ◌≤◌, ◌<◌, ◌≡◌, refl, ap, ◌∙◌, Bool, true, false, none, some, ◌++◌, if◌then◌else◌, ltb, length,
  take, drop, arith, take_of_length-le, take-append_left, length-append, length-drop,
}
use container_builder_shim.Common.Bytes.{Bytes}
use container_builder_shim.Stdio.{wrote, failed, panicked, copy_into, write}

copied : (buf p : Bytes) → length p ≤ length buf → copy_into buf p ≡ p ++ drop (length p) buf
unfolding copy_into
copied buf p h = ap (λ q. q ++ drop (length p) buf) (take_of_length-le (length buf) p h)

-- A write that fits the buffer sends exactly its bytes, reports their number if the request is
-- answered, and keeps the length of the buffer.
pub write-sends :
    (answered : Bool) (buf p : Bytes)
    → length p ≤ length buf
    → ((write answered buf p).1 ≡ some p)
      × ((write answered buf p).2 ≡ (if answered then wrote (length p) else failed))
      × (length (write answered buf p).0 ≡ length buf)
unfolding write
write-sends answered buf p h =
    let fits : ltb (length buf) (length p) ≡ false = ground arith in
    let c = copied buf p h in
    let data_sent : take (length p) (copy_into buf p) ≡ p =
      ap (take (length p)) c
      ∙ take-append_left (length p) p (drop (length p) buf) (omega arith)
      ∙ take_of_length-le (length p) p (omega arith) in
    let kept : length (copy_into buf p) ≡ length buf =
      ap length c
      ∙ omega (arith, length-append p (drop (length p) buf), length-drop (length p) buf) in
    (rw fits (ap some data_sent), rw fits refl, rw fits kept)

-- A write that is longer than the buffer sends nothing and panics.
pub write-panics :
    (answered : Bool) (buf p : Bytes)
    → length buf < length p
    → ((write answered buf p).1 ≡ none) × ((write answered buf p).2 ≡ panicked)
unfolding write
write-panics answered buf p h =
    let over : ltb (length buf) (length p) ≡ true = ground arith in (rw over refl, rw over refl)
