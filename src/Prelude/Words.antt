-- ===== src/Prelude/Words.antt =====
-- `std::size_t` arithmetic: the value is taken modulo 2 ^ 64.
use Prim.Native.Nat.{ℕ, ◌+◌, ◌-◌, ◌%◌, ◌^◌}

abbrev pub size_mod : ℕ
size_mod = 2 ^ 64

abbrev pub add64 : ℕ → ℕ → ℕ
add64 a b = (a + b) % size_mod

abbrev pub sub64 : ℕ → ℕ → ℕ
sub64 a b = (a + size_mod - b) % size_mod

-- `static_cast<std::size_t>(-1)`.
abbrev pub size_max : ℕ
size_max = 2 ^ 64 - 1
