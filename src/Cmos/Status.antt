-- ===== src/Cmos/Status.antt =====
-- Status register B (src/devices/cmos.rs).
use ferrum_vm.Prelude.{
  ℕ, ◌<◌, ◌≡◌, refl, ap, ◌∙◌, Bool, true, List, ◌∷◌, replicate, ◌==◌, arith, ok, ◌>>=◌, Build,
}
use ferrum_vm.Cmos
use ferrum_vm.Prelude.Bit.{all_below, all_below-holds}
use ferrum_vm.Cmos.{
  Cmos, CmosRegister, Utc, status_b, status_b_byte, set_status_b, write_reg, read_reg, output,
  input,
}

same_bits : ℕ → Bool
same_bits v = status_b_byte (set_status_b Cmos.new v) == v

same_bits-all : all_below 256 same_bits ≡ true
unfolding all_below same_bits status_b_byte set_status_b
same_bits-all = refl

status_b_byte-set_status_b : (c : Cmos) (v : ℕ) → v < 256 → status_b_byte (set_status_b c v) ≡ v
unfolding status_b_byte set_status_b same_bits
status_b_byte-set_status_b c v h =
    let same : same_bits v ≡ true = all_below-holds 256 same_bits same_bits-all v h in ground arith

read_reg-set_status_b :
    (c : Cmos) (now : Utc) (v : ℕ) (reg : CmosRegister)
    → reg ≡ status_b
    → v < 256
    → read_reg (set_status_b c v) now reg ≡ v
unfolding read_reg
read_reg-set_status_b c now v reg selected h = rw selected (status_b_byte-set_status_b c v h)

reg-set_status_b : (c : Cmos) (v : ℕ) → (set_status_b c v).reg ≡ c.reg
unfolding set_status_b
reg-set_status_b c v = refl

input-set_status_b :
    (c : Cmos) (now : Utc) (v n : ℕ)
    → c.reg ≡ status_b
    → v < 256
    → input (set_status_b c v) now 1 n ≡ replicate n v
unfolding input
input-set_status_b c now v n selected h =
    ap (λ x. replicate n x)
      (read_reg-set_status_b c now v (set_status_b c v).reg (reg-set_status_b c v ∙ selected) h)

write_reg-status_b :
    (c : Cmos) (v : ℕ) (rest : List ℕ) (reg : CmosRegister)
    → reg ≡ status_b
    → write_reg c reg (v ∷ rest) ≡ ok (set_status_b c v)
unfolding write_reg
write_reg-status_b c v rest reg selected = rw selected refl

-- With status register B selected, a byte that the guest writes to the data port is the byte that it
-- reads back there, whatever the byte, the other registers and the time, in both builds.
input-output_status_b :
    (b : Build) (c : Cmos) (now : Utc) (v n : ℕ) (rest : List ℕ)
    → c.reg ≡ status_b
    → v < 256
    → (output b c 1 (v ∷ rest) >>= λ c'. ok (input c' now 1 n)) ≡ ok (replicate n v)
unfolding output
input-output_status_b b c now v n rest selected h =
    let written = write_reg-status_b c v rest c.reg selected in
    ap (λ r. r >>= λ c'. ok (input c' now 1 n)) written
    ∙ ap ok (input-set_status_b c now v n selected h)
