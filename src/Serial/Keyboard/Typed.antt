-- ===== src/Serial/Keyboard/Typed.antt =====
-- Text that is typed reaches the guest (src/devices/serial.rs).
use ferrum_vm.Prelude.{
  ℕ, zero, suc, ◌+◌, ◌-◌, ◌*◌, ◌<◌, ◌≡◌, refl, ap, sym, ◌∙◌, bit_and, Bool, false, not, ◌&&◌, List,
  [], ◌∷◌, ◌++◌, map, length, ltb, ◌==◌, ◌!=◌, if◌then◌else◌, arith,
}
use ferrum_vm.Serial.{Port, input, tick}
use ferrum_vm.Serial.Input.{extend_queue, padded, input-tick}
use ferrum_vm.Serial.Keyboard.{Event, press, char, encode_utf8, handle_event, listen}

-- A reader of UTF-8: the code points, with `left` bytes of one still to come and `acc` read of it.
unfoldable pub decode_from : List ℕ → ℕ → ℕ → List ℕ
decode_from [] left acc = []
decode_from (x ∷ xs) zero acc =
    let whole = x ∷ decode_from xs 0 0 in
    let two = decode_from xs 1 (x - 0xC0) in
    let three = decode_from xs 2 (x - 0xE0) in
    let four = decode_from xs 3 (x - 0xF0) in
    if ltb x 0x80 then whole else if ltb x 0xE0 then two else if ltb x 0xF0 then three else four
decode_from (x ∷ xs) (suc zero) acc = (acc * 64 + (x - 0x80)) ∷ decode_from xs 0 0
decode_from (x ∷ xs) (suc (suc left)) acc = decode_from xs (suc left) (acc * 64 + (x - 0x80))

decode-encode_utf8 :
    (c : ℕ) (rest : List ℕ)
    → c < 0x110000
    → decode_from (encode_utf8 c ++ rest) 0 0 ≡ c ∷ decode_from rest 0 0
unfolding decode_from encode_utf8
decode-encode_utf8 c rest h = ground arith

-- A character that is typed without CONTROL, and whether another modifier is held.
abbrev pub typed : ℕ × Bool → Event
typed (c, shift) = press (char c) (record { control = false; others = shift })

abbrev pub character : ℕ × Bool → ℕ
character (c, shift) = c

-- Code points, as far as the encoding reaches.
abbrev pub AllPoints : List (ℕ × Bool) → Type 0
AllPoints [] = Unit {0}
AllPoints ((c, shift) ∷ cs) = (c < 0x110000) × AllPoints cs

unfoldable pub encode_all : List (ℕ × Bool) → List ℕ
encode_all [] = []
encode_all ((c, shift) ∷ cs) = encode_utf8 c ++ encode_all cs

decode-encode_all :
    (cs : List (ℕ × Bool)) → AllPoints cs → decode_from (encode_all cs) 0 0 ≡ map character cs
unfolding encode_all
decode-encode_all [] h = unfold decode_from in refl
decode-encode_all ((c, shift) ∷ cs) (h, hs) =
    decode-encode_utf8 c (encode_all cs) h ∙ ap (λ ds. c ∷ ds) (decode-encode_all cs hs)

extend_queue-append :
    (xs ys queue : List ℕ) → extend_queue (xs ++ ys) queue ≡ extend_queue ys (extend_queue xs queue)
unfolding extend_queue
extend_queue-append [] ys queue = refl
extend_queue-append (x ∷ xs) ys queue = extend_queue-append xs ys (x ∷ queue)

exit_needs_control : (c : ℕ) (shift : Bool) → (c == b'z' && (false && not shift)) ≡ false
exit_needs_control c shift = ground arith

listen-typed :
    (cs : List (ℕ × Bool)) (queue : List ℕ)
    → (listen (map typed cs) (record { queue = queue; exited = false })).queue
      ≡ extend_queue (encode_all cs) queue
unfolding listen handle_event encode_all extend_queue
listen-typed [] queue = refl
listen-typed ((c, shift) ∷ cs) queue = rw (exit_needs_control c shift) (
    listen-typed cs (extend_queue (encode_utf8 c) queue)
    ∙ sym (extend_queue-append (encode_utf8 c) (encode_all cs) queue))

padded_whole : (xs : List ℕ) → padded (length xs) (xs ++ []) ≡ xs
unfolding padded
padded_whole [] = refl
padded_whole (x ∷ xs) = ap (λ ys. x ∷ ys) (padded_whole xs)

-- The port once the keyboard thread has handled the events.
abbrev pub after_keys : List Event → Port → Port
after_keys events p = record p {
  serial = record p.serial {
    queue = (listen events (record { queue = p.serial.queue; exited = false })).queue;
  };
}

-- Text that is typed without CONTROL, with other modifiers or none, at a port that holds nothing
-- unread is what the guest reads: after the next tick a read of port 0 with the divisor latch closed
-- returns bytes from which a reader of UTF-8 gets the code points, in the order they were typed.
pub input-typed :
    (file_write : List ℕ → List ℕ → List ℕ) (p : Port) (cs : List (ℕ × Bool))
    → AllPoints cs
    → p.serial.queue ≡ []
    → p.serial.received ≡ []
    → (bit_and p.serial.lcr 0x80 != 0) ≡ false
    → decode_from
        (input file_write (tick (after_keys (map typed cs) p)) 0 (length (encode_all cs))).0
        0
        0
      ≡ map character cs
input-typed file_write p cs points no_queue unread closed =
    let keyed = after_keys (map typed cs) p in
    let queued : keyed.serial.queue ≡ extend_queue (encode_all cs) [] =
      listen-typed cs p.serial.queue ∙ ap (extend_queue (encode_all cs)) no_queue in
    let bytes =
      input-tick file_write keyed (encode_all cs) (length (encode_all cs)) queued closed in
    let held : padded (length (encode_all cs)) (encode_all cs ++ p.serial.received)
        ≡ encode_all cs =
      ap (λ r. padded (length (encode_all cs)) (encode_all cs ++ r)) unread
      ∙ padded_whole (encode_all cs) in
    ap (λ bs. decode_from bs 0 0) (bytes ∙ held) ∙ decode-encode_all cs points
