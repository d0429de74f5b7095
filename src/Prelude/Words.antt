-- ===== src/Prelude/Words.antt =====
-- Fixed-width unsigned arithmetic and bit fields, written with `%`, `/` and `*`.
use Prim.Native.Nat.{ℕ, ◌+◌, ◌-◌, ◌*◌, ◌/◌, ◌%◌, ◌^◌}

abbrev pub u8_mod : ℕ
u8_mod = 2 ^ 8

abbrev pub u16_mod : ℕ
u16_mod = 2 ^ 16

abbrev pub u32_mod : ℕ
u32_mod = 2 ^ 32

abbrev pub u64_mod : ℕ
u64_mod = 2 ^ 64

-- `_RB(v, hi, lo)` of include/libnvm/nvm_util.h: the bits from lo to hi, moved down.
abbrev pub read_bits : ℕ → ℕ → ℕ → ℕ
read_bits v hi lo = v / 2 ^ lo % 2 ^ (hi + 1 - lo)

-- `_WB(v, hi, lo)`: v moved up to bit lo and cut after bit hi.
abbrev pub write_bits : ℕ → ℕ → ℕ → ℕ
write_bits v hi lo = v % 2 ^ (hi + 1 - lo) * 2 ^ lo
