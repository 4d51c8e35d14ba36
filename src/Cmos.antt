-- ===== src/Cmos.antt =====
-- The CMOS clock: src/devices/cmos.rs.
use ferrum_vm.Prelude.{
  ℕ, ◌+◌, ◌-◌, ◌*◌, ◌/◌, ◌%◌, ◌^◌, bit_and, bit_or, Bool, true, false, not, List, replicate, length,
  get_elem?, get_or, ◌∷◌, [], ◌==◌, ◌!=◌, if◌then◌else◌, Result, ok, ◌>>=◌, unwrap, u8_mod, Build,
  sub_word, u64_mod,
}
use ferrum_vm.DeviceMap.Io.{IoDevice}
pub mod Bcd
pub mod Status
mod Examples

pub data CmosRegister : Type 0 where
  unset seconds minute hour second_alarm minute_alarm hour_alarm day_of_week day_of_month month year
        status_a status_b status_c status_d :
      CmosRegister

pub record Cmos : Type 0 where
  pub reg : CmosRegister
  pub uip : Bool
  pub oscillator : ℕ
  pub rate : ℕ
  pub halt : Bool
  pub periodic_irq : Bool
  pub enable_alrm : Bool
  pub enable_up_ended_irq : Bool
  pub squ_wave : Bool
  pub binary : Bool
  pub hour_12 : Bool
  pub ds_enable : Bool

unfoldable pub new : Cmos
new = record {
  reg = unset;
  uip = false;
  oscillator = 2;
  rate = 6;
  halt = false;
  periodic_irq = false;
  enable_alrm = false;
  enable_up_ended_irq = false;
  squ_wave = false;
  binary = false;
  hour_12 = false;
  ds_enable = false;
}

unfoldable pub set_uip : Cmos → Bool → Cmos
set_uip c v = record c { uip = v }

unfoldable pub set_oscillator : Cmos → ℕ → Cmos
set_oscillator c v = record c { oscillator = v }

unfoldable pub set_rate : Cmos → ℕ → Cmos
set_rate c v = record c { rate = v }

-- What the code reads of `Utc::now()`.
pub record Utc : Type 0 where
  pub second : ℕ
  pub minute : ℕ
  pub hour : ℕ
  pub hour12 : ℕ
  pub number_from_sunday : ℕ
  pub day : ℕ
  pub month : ℕ
  pub year : ℕ

-- `x << n` on a `u8`.
abbrev pub shl : ℕ → ℕ → ℕ
shl x n = (x * 2 ^ n) % u8_mod

-- `b as u8`.
abbrev pub as_u8 : Bool → ℕ
as_u8 true = 1
as_u8 false = 0

unfoldable pub to_bcd : ℕ → ℕ
to_bcd val = bit_or (shl (val / 10) 4) (val % 10)

-- `let val = if self.binary { val } else { to_bcd(val) }`.
unfoldable pub coded : Cmos → ℕ → ℕ
coded c val = if c.binary then val else to_bcd val

unfoldable pub status_b_byte : Cmos → ℕ
status_b_byte c =
    bit_or
      (bit_or
        (bit_or
          (bit_or
            (bit_or
              (bit_or (bit_or (shl (as_u8 c.halt) 7) (shl (as_u8 c.periodic_irq) 6))
                (shl (as_u8 c.enable_alrm) 5))
              (shl (as_u8 c.enable_up_ended_irq) 4))
            (shl (as_u8 c.squ_wave) 3))
          (shl (as_u8 c.binary) 2))
        (shl (as_u8 (not c.hour_12)) 1))
      (as_u8 c.ds_enable)

unfoldable pub read_reg : Cmos → Utc → CmosRegister → ℕ
read_reg c now seconds = coded c now.second
read_reg c now minute = coded c now.minute
read_reg c now hour = coded c (if c.hour_12 then now.hour12 else now.hour)
read_reg c now day_of_week = now.number_from_sunday
read_reg c now day_of_month = coded c now.day
read_reg c now month = coded c now.month
read_reg c now year = coded c (now.year % 100)
read_reg c now status_a = bit_or (bit_or (shl (as_u8 c.uip) 7) (shl c.oscillator 4)) c.rate
read_reg c now status_b = status_b_byte c
read_reg c now status_c = 0
read_reg c now status_d = 0x80
read_reg c now _ = 0

unfoldable pub input : Cmos → Utc → ℕ → ℕ → List ℕ
input c now port length = replicate length (if port == 1 then read_reg c now c.reg else 0)

-- The registers by their index.
abbrev pub registers : List CmosRegister
registers =
    seconds ∷ second_alarm ∷ minute ∷ minute_alarm ∷ hour ∷ hour_alarm ∷ day_of_week ∷ day_of_month
    ∷ month ∷ year ∷ status_a ∷ status_b ∷ status_c ∷ status_d ∷ []

unfoldable pub select : CmosRegister → ℕ → CmosRegister
select reg index = get_or registers index reg

-- `(val >> n) & 1 != 0`.
abbrev pub bit : ℕ → ℕ → Bool
bit val n = bit_and (val / 2 ^ n) 1 != 0

unfoldable pub set_status_b : Cmos → ℕ → Cmos
set_status_b c val = record c {
  halt = bit val 7;
  periodic_irq = bit val 6;
  enable_alrm = bit val 5;
  enable_up_ended_irq = bit val 4;
  squ_wave = bit val 3;
  binary = bit val 2;
  hour_12 = not (bit val 1);
  ds_enable = bit val 0;
}

unfoldable pub write_reg : Cmos → CmosRegister → List ℕ → Result Cmos
write_reg c status_b bytes = do val ← unwrap (get_elem? bytes 0); ok (set_status_b c val)
write_reg c _ bytes = ok c

unfoldable pub output : Build → Cmos → ℕ → List ℕ → Result Cmos
output b c port bytes =
    if port == 0
    then (do
      last ← sub_word b u64_mod (length bytes) 1
      index ← unwrap (get_elem? bytes last)
      ok (record c { reg = select c.reg (bit_and index 0x7F) }))
    else if port == 1
    then write_reg c c.reg bytes
    else ok c
