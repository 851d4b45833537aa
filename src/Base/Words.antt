-- ===== src/Base/Words.antt =====
-- Machine words as native numbers, with the wrap-around written out.
use Prim.Native.Nat.{ℕ, ◌+◌, ◌-◌, ◌*◌, ◌%◌, ◌^◌}

-- uint8_t, uint16_t, uint32_t, uint64_t and size_t (of 64 bits) keep these many values.
abbrev pub u8_mod : ℕ
u8_mod = 2 ^ 8

abbrev pub u16_mod : ℕ
u16_mod = 2 ^ 16

abbrev pub u32_mod : ℕ
u32_mod = 2 ^ 32

abbrev pub u64_mod : ℕ
u64_mod = 2 ^ 64

-- ++ on a uint16_t, a uint32_t, and a uint64_t or size_t.
abbrev pub inc16 : ℕ → ℕ
inc16 a = (a + 1) % u16_mod

abbrev pub inc32 : ℕ → ℕ
inc32 a = (a + 1) % u32_mod

abbrev pub inc64 : ℕ → ℕ
inc64 a = (a + 1) % u64_mod

-- -- on a uint16_t.
abbrev pub dec16 : ℕ → ℕ
dec16 a = (a + u16_mod - 1) % u16_mod

-- + and * on size_t.
abbrev pub add_size : ℕ → ℕ → ℕ
add_size a b = (a + b) % u64_mod

abbrev pub mul_size : ℕ → ℕ → ℕ
mul_size a b = (a * b) % u64_mod

-- - on size_t.
abbrev pub sub_size : ℕ → ℕ → ℕ
sub_size a b = (a + u64_mod - b) % u64_mod
