-- ===== src/Base/Words.antt =====
-- 64-bit words (`size_t`, `uint64_t`): arithmetic modulo 2 ^ 64.
use Prim.Native.Nat.{ℕ, ◌+◌, ◌-◌, ◌%◌, ◌^◌}

abbrev pub u64 : ℕ → ℕ
u64 n = n % 2 ^ 64

-- `a - b` on `size_t`.
abbrev pub sub64 : ℕ → ℕ → ℕ
sub64 a b = (a + 2 ^ 64 - b) % 2 ^ 64

-- The order-preserving map from `(int64_t)x` to ℕ: x - 2 ^ 63 becomes x.
abbrev pub signed_rank : ℕ → ℕ
signed_rank x = (x + 2 ^ 63) % 2 ^ 64
