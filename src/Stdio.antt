-- ===== src/Stdio.antt =====
-- pkg/stdio/stdio.go: the stream of the build's progress, and the terminal's size.
-- Decoding a command (base64 and JSON) is a parameter, and so are the answer to a request and what
-- the console says to a resize. A console is its size; a nil one is `none`.
pub mod Output
mod Tests
use container_builder_shim.Common.{
  ℕ, ◌%◌, Bool, true, false, ◌||◌, Option, none, some, List, ◌++◌, if◌then◌else◌, ◌==◌, bytes_eq,
  ltb, length, take, drop,
}
use container_builder_shim.Common.Int.{ℤ, pos, negsuc, bits, leb_ℤ}
use container_builder_shim.Common.Bytes.{Bytes, codes}

pub data Error : Type 0 where
  ignore_packet not_a_tty invalid_command resize_failed : Error

pub record TerminalCommand : Type 0 where
  pub command_type : Bytes
  pub code : Bytes
  pub rows : ℤ
  pub cols : ℤ

-- `uint16(n)`
abbrev pub uint16 : ℤ → ℕ
uint16 n = bits n % 65536

abbrev pub Console : Type 0
Console = Option (ℕ × ℕ)

module _ (resizes : Bool) where
  -- `resizeTerminal`: the console after it, and its error.
  unfoldable pub resize_terminal : ℤ → ℤ → Console → Console × Option Error
  resize_terminal rows cols none = (none, some not_a_tty)
  resize_terminal rows cols (some size) =
      if leb_ℤ rows (pos 0) || leb_ℤ cols (pos 0)
      then (some size, none)
      else if resizes
      then (some (uint16 rows, uint16 cols), none)
      else (some size, some resize_failed)

  unfoldable pub handle_terminal_command : TerminalCommand → Console → Console × Option Error
  unfolding resize_terminal bytes_eq
  handle_terminal_command c console =
      if c.code == codes "winch"
      then resize_terminal c.rows c.cols console
      else if c.code == codes "ack"
      then (console, none)
      else (console, some invalid_command)

  -- `Filter`, for a packet that is a command or not.
  unfoldable pub filter_command :
      (Bytes → Option TerminalCommand) → Option Bytes → Console → Console × Option Error
  unfolding handle_terminal_command bytes_eq
  filter_command decode none console = (console, some ignore_packet)
  filter_command decode (some encoded) console = elim (decode encoded) [
    | none ↦ (console, some ignore_packet)
    | some c ↦
        if c.command_type == codes "terminal"
        then handle_terminal_command c console
        else (console, some ignore_packet)
  ]

-- How `Write` ends: with the number of bytes, with an error, or in a panic.
pub data Written : Type 0 where
  wrote : ℕ → Written
  failed : Written
  panicked : Written

-- `copy(buf, p)`
unfoldable pub copy_into : Bytes → Bytes → Bytes
unfolding take drop
copy_into buf p = take (length buf) p ++ drop (length p) buf

-- `Write`: the buffer after it, the data that it sends, and its end; `answered` says whether the
-- request succeeds. The slice `buf[0:len(p)]` panics where the buffer is shorter.
unfoldable pub write : Bool → Bytes → Bytes → Bytes × Option Bytes × Written
unfolding copy_into take
write answered buf p =
    let filled = copy_into buf p in
    if ltb (length buf) (length p)
    then (filled, none, panicked)
    else (filled, some (take (length p) filled), (if answered then wrote (length p) else failed))
