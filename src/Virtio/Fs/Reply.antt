-- ===== src/Virtio/Fs/Reply.antt =====
-- The replies of the file system device (src/devices/virtio/devices/fs.rs).
use ferrum_vm.Prelude.{
  ℕ, ◌+◌, ◌-◌, ◌%◌, ◌^◌, ◌<◌, ◌≡◌, refl, ap, ◌∙◌, List, [], length, take, drop, arith, u32_mod,
}
use ferrum_vm.Prelude.Bytes.{from_le, from_le-le_bytes}
use ferrum_vm.SharedFolder.Handlers.{Outcome, done, errno}
use ferrum_vm.SharedFolder.Wire.{out_header_to_bytes, out_header_length}
use ferrum_vm.Virtio.Fs.{reply_bytes}

-- The number in `n` bytes from `at` on.
abbrev pub field : List ℕ → ℕ → ℕ → ℕ
field bytes at n = from_le (take n (drop at bytes))

-- What the guest reads of a reply: its own number, the error and what follows.
abbrev pub IsReply : ℕ → Outcome (List ℕ) → List ℕ → Type 0
IsReply unique (done payload) bytes =
    (field bytes 4 4 ≡ 0) × (field bytes 8 8 ≡ unique) × (drop 16 bytes ≡ payload)
IsReply unique (errno e) bytes =
    (field bytes 4 4 ≡ (u32_mod - e) % u32_mod) × (field bytes 8 8 ≡ unique) × (drop 16 bytes ≡ [])

-- A reply to a request begins with its own length as a 32-bit word and then has the error, which is 0
-- or the 32-bit word of the negated error number, the number of the request, and for a success the payload.
reply_bytes-IsReply :
    (unique : ℕ) (o : Outcome (List ℕ))
    → unique < 256 ^ 8
    → (field (reply_bytes unique o) 0 4 ≡ length (reply_bytes unique o) % u32_mod)
      × IsReply unique o (reply_bytes unique o)
unfolding reply_bytes out_header_to_bytes
reply_bytes-IsReply unique (done payload) small = (
  from_le-le_bytes 4 ((out_header_length + length payload) % u32_mod) (omega arith)
      ∙ ap (λ n. n % u32_mod) (omega arith),
  (refl, from_le-le_bytes 8 unique small, refl),
)
reply_bytes-IsReply unique (errno e) small = (
  refl,
  (
    from_le-le_bytes 4 ((u32_mod - e) % u32_mod) (omega arith),
    from_le-le_bytes 8 unique small,
    refl,
  ),
)
