-- ===== src/Cmos/Examples.antt =====
-- Runs of the clock (src/devices/cmos.rs).
use ferrum_vm.Prelude.{◌≡◌, refl, ok, debug, [], ◌∷◌, arith}
use ferrum_vm.Cmos
use ferrum_vm.Cmos.{Utc}
use ferrum_vm.Cmos.Bcd.{clock_read, clock_read-now}

-- 2024-12-31, a Tuesday, 23:58:59.
abbrev now : Utc
now = record {
  second = 59;
  minute = 58;
  hour = 23;
  hour12 = 11;
  number_from_sunday = 3;
  day = 31;
  month = 12;
  year = 2024;
}

-- The binary 12-hour mode.
clock_read-now_example :
    (clock_read debug Cmos.new now 0x04 0x00 ≡ ok (59 ∷ []))
    × (clock_read debug Cmos.new now 0x04 0x02 ≡ ok (58 ∷ []))
    × (clock_read debug Cmos.new now 0x04 0x04 ≡ ok (11 ∷ []))
    × (clock_read debug Cmos.new now 0x04 0x07 ≡ ok (31 ∷ []))
    × (clock_read debug Cmos.new now 0x04 0x08 ≡ ok (12 ∷ []))
    × (clock_read debug Cmos.new now 0x04 0x09 ≡ ok (24 ∷ []))
clock_read-now_example =
    clock_read-now debug Cmos.new now 0x04 (omega arith) (omega arith) (omega arith) refl
      (omega arith) (omega arith)
