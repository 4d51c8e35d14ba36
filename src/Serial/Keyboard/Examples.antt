-- ===== src/Serial/Keyboard/Examples.antt =====
-- Keys at the terminal (src/devices/serial.rs).
use ferrum_vm.Prelude.{ℕ, ◌≡◌, refl, Bool, true, false, List, [], ◌∷◌, map, arith}
use ferrum_vm.Irq
use ferrum_vm.Serial
use ferrum_vm.Serial.{Port, terminal, input, tick}
use ferrum_vm.Serial.Keyboard.{Event, press, ignored, char, up, KeyModifiers, Thread, listen}
use ferrum_vm.Serial.Keyboard.Typed.{decode_from, encode_all, typed, after_keys, input-typed}

abbrev plain : KeyModifiers
plain = record { control = false; others = false }

abbrev held : KeyModifiers
held = record { control = true; others = false }

abbrev idle : Thread
idle = record { queue = []; exited = false }

abbrev session : List Event
session = press (char b'l') plain ∷ ignored ∷ press (char b'C') held ∷ press up plain ∷ []

session_queue : (listen session idle).queue ≡ b'A' ∷ b'[' ∷ 0x1B ∷ 0x03 ∷ b'l' ∷ []
unfolding listen Serial.Keyboard.handle_event Serial.Input.extend_queue
session_queue = refl

-- Ctrl+Z ends the process: what is typed after it is lost.
leave :
    listen (press (char b'z') held ∷ press (char b'l') plain ∷ []) idle
    ≡ record { queue = []; exited = true }
unfolding listen Serial.Keyboard.handle_event
leave = refl

abbrev port : Port
port = record { serial = Serial.new (terminal []); irqs = Irq.new }

abbrev written : List ℕ → List ℕ → List ℕ
written content bytes = content

-- A letter, an umlaut typed with SHIFT, and a character of four bytes.
abbrev text : List (ℕ × Bool)
text = (0x6C, false) ∷ (0xC4, true) ∷ (0x1F600, false) ∷ []

input-typed_example :
    decode_from (input written (tick (after_keys (map typed text) port)) 0 7).0 0 0
    ≡ 0x6C ∷ 0xC4 ∷ 0x1F600 ∷ []
unfolding Serial.new encode_all Serial.Keyboard.encode_utf8
input-typed_example =
    input-typed written port text (omega arith, (omega arith, (omega arith, tt))) refl refl refl
