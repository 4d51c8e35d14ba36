-- ===== src/Serial/Keyboard.antt =====
-- The keyboard thread of `Serial::new` (src/devices/serial.rs). The terminal's events are a list; the
-- thread ends with the process.
use ferrum_vm.Prelude.{
  ℕ, ◌+◌, ◌/◌, ◌%◌, bit_and, Bool, true, false, not, ◌&&◌, Option, none, some, List, [], ◌∷◌, ltb,
  ◌==◌, if◌then◌else◌,
}
use ferrum_vm.Serial.Input.{extend_queue}
pub mod Typed
mod Examples

-- `KeyCode`: a character by its code point, a key with a name, or a key that the thread does not know.
pub data KeyCode : Type 0 where
  char : ℕ → KeyCode
  enter backspace delete esc tab back_tab up down right left home end page_up page_down insert :
      KeyCode
  f : ℕ → KeyCode
  unknown : KeyCode

-- `KeyModifiers`: whether CONTROL is set, and whether another one is.
pub record KeyModifiers : Type 0 where
  pub control : Bool
  pub others : Bool

-- `Event`: a key that is pressed, or anything else.
pub data Event : Type 0 where
  press : KeyCode → KeyModifiers → Event
  ignored : Event

-- `char::encode_utf8`.
unfoldable pub encode_utf8 : ℕ → List ℕ
encode_utf8 c =
    if ltb c 0x80
    then c ∷ []
    else if ltb c 0x800
    then (0xC0 + c / 64) ∷ (0x80 + c % 64) ∷ []
    else if ltb c 0x10000
    then (0xE0 + c / 4096) ∷ (0x80 + c / 64 % 64) ∷ (0x80 + c % 64) ∷ []
    else (0xF0 + c / 262144) ∷ (0x80 + c / 4096 % 64) ∷ (0x80 + c / 64 % 64) ∷ (0x80 + c % 64) ∷ []

-- The function keys: `\x1bOP` to `\x1bOS`, then `\x1b[15~` to `\x1b[24~`.
unfoldable pub function_key : ℕ → Option (List ℕ)
function_key n =
    if n == 1
    then some (0x1B ∷ b'O' ∷ b'P' ∷ [])
    else if n == 2
    then some (0x1B ∷ b'O' ∷ b'Q' ∷ [])
    else if n == 3
    then some (0x1B ∷ b'O' ∷ b'R' ∷ [])
    else if n == 4
    then some (0x1B ∷ b'O' ∷ b'S' ∷ [])
    else if n == 5
    then some (0x1B ∷ b'[' ∷ b'1' ∷ b'5' ∷ b'~' ∷ [])
    else if n == 6
    then some (0x1B ∷ b'[' ∷ b'1' ∷ b'7' ∷ b'~' ∷ [])
    else if n == 7
    then some (0x1B ∷ b'[' ∷ b'1' ∷ b'8' ∷ b'~' ∷ [])
    else if n == 8
    then some (0x1B ∷ b'[' ∷ b'1' ∷ b'9' ∷ b'~' ∷ [])
    else if n == 9
    then some (0x1B ∷ b'[' ∷ b'2' ∷ b'0' ∷ b'~' ∷ [])
    else if n == 10
    then some (0x1B ∷ b'[' ∷ b'2' ∷ b'1' ∷ b'~' ∷ [])
    else if n == 11
    then some (0x1B ∷ b'[' ∷ b'2' ∷ b'3' ∷ b'~' ∷ [])
    else if n == 12
    then some (0x1B ∷ b'[' ∷ b'2' ∷ b'4' ∷ b'~' ∷ [])
    else none

-- The bytes of a key, none where the thread goes on without one.
unfoldable pub key_bytes : KeyCode → KeyModifiers → Option (List ℕ)
unfolding encode_utf8 function_key
key_bytes (char c) modifiers =
    if modifiers.control then some (bit_and (c % 256) 0x1F ∷ []) else some (encode_utf8 c)
key_bytes enter modifiers = some (0x0D ∷ [])
key_bytes backspace modifiers = some (0x7F ∷ [])
key_bytes delete modifiers = some (0x1B ∷ b'[' ∷ b'3' ∷ b'~' ∷ [])
key_bytes esc modifiers = some (0x1B ∷ [])
key_bytes tab modifiers = some (0x09 ∷ [])
key_bytes back_tab modifiers = some (0x1B ∷ b'[' ∷ b'Z' ∷ [])
key_bytes up modifiers = some (0x1B ∷ b'[' ∷ b'A' ∷ [])
key_bytes down modifiers = some (0x1B ∷ b'[' ∷ b'B' ∷ [])
key_bytes right modifiers = some (0x1B ∷ b'[' ∷ b'C' ∷ [])
key_bytes left modifiers = some (0x1B ∷ b'[' ∷ b'D' ∷ [])
key_bytes home modifiers = some (0x1B ∷ b'[' ∷ b'H' ∷ [])
key_bytes end modifiers = some (0x1B ∷ b'[' ∷ b'F' ∷ [])
key_bytes page_up modifiers = some (0x1B ∷ b'[' ∷ b'5' ∷ b'~' ∷ [])
key_bytes page_down modifiers = some (0x1B ∷ b'[' ∷ b'6' ∷ b'~' ∷ [])
key_bytes insert modifiers = some (0x1B ∷ b'[' ∷ b'2' ∷ b'~' ∷ [])
key_bytes (f n) modifiers = function_key n
key_bytes unknown modifiers = none

-- The pattern of the first arm: `z` with CONTROL and no other modifier.
unfoldable pub is_exit : KeyCode → KeyModifiers → Bool
is_exit (char c) modifiers = c == b'z' && (modifiers.control && not modifiers.others)
is_exit _ modifiers = false

-- The shared queue, and whether the process has exited.
pub record Thread : Type 0 where
  pub queue : List ℕ
  pub exited : Bool

unfoldable pub enqueue : Option (List ℕ) → Thread → Thread
enqueue none t = t
enqueue (some bytes) t = record t { queue = extend_queue bytes t.queue }

-- One turn of the loop.
unfoldable pub handle_event : Event → Thread → Thread
unfolding is_exit key_bytes enqueue
handle_event ignored t = t
handle_event (press code modifiers) t =
    if is_exit code modifiers
    then record t { exited = true }
    else enqueue (key_bytes code modifiers) t

unfoldable pub listen : List Event → Thread → Thread
listen [] t = t
listen (e ∷ es) t = let rest = listen es (handle_event e t) in if t.exited then t else rest
