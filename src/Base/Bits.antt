-- ===== src/Base/Bits.antt =====
-- `&` at variables: the digit law, masks of ones at every width, and the test for a power of two.
use Prim.Native.Nat.{
  ℕ, zero, suc, ◌+◌, ◌-◌, ◌*◌, ◌/◌, ◌%◌, ◌^◌, ◌≤◌, ◌<◌, min, bit_and, digits, bit_and-bitwise,
}
use mathlib.Core.Path.{◌≡◌, refl, ap, ◌∙◌}
use mathlib.Core.Logic.{◌≢◌}
use native.Mathlib.Nat.{
  pow-suc, one-le-pow, add-mul-mod_self_right, mod-eq_of_lt, div-add-mod, mod-lt,
}
use native.Mathlib.Decide.{ℕ_discrete}
use native.Mathlib.Omega.{arith}

-- The recursion on binary digits that `bit_and` stands for, `f` digits deep.
abbrev conj : ℕ → ℕ → ℕ → ℕ
conj f a b = digits (λ b. zero) min f a b

conj-zero : (f b : ℕ) → conj f 0 b ≡ 0
conj-zero zero b = refl
conj-zero (suc f) b = refl

-- More digits than the left number has change nothing.
conj_enough : (f g a b : ℕ) → a ≤ f → a ≤ g → conj f a b ≡ conj g a b
conj_enough f g zero b p q = omega (arith, conj-zero f b, conj-zero g b)
conj_enough zero g (suc a) b p q = absurd (omega arith)
conj_enough (suc f) zero (suc a) b p q = absurd (omega arith)
conj_enough (suc f) (suc g) (suc a) b p q =
    omega (arith, conj_enough f g (suc a / 2) (b / 2) (omega arith) (omega arith))

pub bit_and-digit : (a b : ℕ) → bit_and a b ≡ 2 * bit_and (a / 2) (b / 2) + min (a % 2) (b % 2)
bit_and-digit zero b = omega (arith, bit_and-bitwise 0 b, bit_and-bitwise 0 (b / 2))
bit_and-digit (suc a) b = omega (
  arith,
  bit_and-bitwise (suc a) b,
  bit_and-bitwise (suc a / 2) (b / 2),
  conj_enough a (suc a / 2) (suc a / 2) (b / 2) (omega arith) (omega arith),
)

-- The laws below go from `a / 2` to `a`, with a bound `f` on `a` to recur on.
bit_and-zero_below : (f a : ℕ) → a ≤ f → bit_and a 0 ≡ 0
bit_and-zero_below f zero h = refl
bit_and-zero_below zero (suc a) h = absurd (omega arith)
bit_and-zero_below (suc f) (suc a) h =
    omega (arith, bit_and-digit (suc a) 0, bit_and-zero_below f (suc a / 2) (omega arith))

pub bit_and-zero : (a : ℕ) → bit_and a 0 ≡ 0
bit_and-zero a = bit_and-zero_below a a (omega arith)

bit_and_self_below : (f a : ℕ) → a ≤ f → bit_and a a ≡ a
bit_and_self_below f zero h = refl
bit_and_self_below zero (suc a) h = absurd (omega arith)
bit_and_self_below (suc f) (suc a) h =
    omega (arith, bit_and-digit (suc a) (suc a), bit_and_self_below f (suc a / 2) (omega arith))

pub bit_and_self : (a : ℕ) → bit_and a a ≡ a
bit_and_self a = bit_and_self_below a a (omega arith)

-- A remainder is known by a quotient.
pub mod_of_eq : (n m q r : ℕ) → n ≡ r + q * m → r < m → n % m ≡ r
mod_of_eq n m q r e h = ap (λ t. t % m) e ∙ add-mul-mod_self_right r q m ∙ mod-eq_of_lt h

-- One binary digit more of a remainder.
mod-double : (a m : ℕ) → 0 < m → a % (m * 2) ≡ a / 2 % m * 2 + a % 2
mod-double a m h =
    mod_of_eq a (m * 2) (a / 2 / m) (a / 2 % m * 2 + a % 2)
      (omega (arith, ap (λ (t : ℕ). t * 2) (div-add-mod (a / 2) m)))
      (omega (arith, mod-lt (a / 2) h))

-- A mask of `k` ones is the remainder by `2 ^ k`.
pub bit_and_ones : (k a : ℕ) → bit_and a (2 ^ k - 1) ≡ a % 2 ^ k
bit_and_ones zero a = omega (arith, bit_and-zero a)
bit_and_ones (suc k) a = rw pow-suc (
    omega (
      arith,
      bit_and-digit a (2 ^ k * 2 - 1),
      bit_and_ones k (a / 2),
      ap (bit_and (a / 2)) half,
      mod-double a (2 ^ k) (one-le-pow k 2 (omega arith)),
      one-le-pow k 2 (omega arith),
    ))
  where
    half : (2 ^ k * 2 - 1) / 2 ≡ 2 ^ k - 1
    half = omega (arith, one-le-pow k 2 (omega arith))

-- A power of two meets its predecessor in no digit, and only a power of two does.
pub power-bit_and_pred : (k : ℕ) → bit_and (2 ^ k) (2 ^ k - 1) ≡ 0
power-bit_and_pred k =
    bit_and_ones k (2 ^ k)
    ∙ mod_of_eq (2 ^ k) (2 ^ k) 1 0 (omega arith) (one-le-pow k 2 (omega arith))

even_power : (u : ℕ) → (k : ℕ) × (u ≡ 2 ^ k) → (k : ℕ) × (u * 2 ≡ 2 ^ k)
even_power u (k, e) = (suc k, omega (arith, e, pow-suc 2 k))

power_below : (f v : ℕ) → v ≤ f → v ≢ 0 → bit_and v (v - 1) ≡ 0 → (k : ℕ) × (v ≡ 2 ^ k)
power_below zero v h n e = absurd (omega arith)
power_below (suc f) v h n e = elim (ℕ_discrete (v % 2) 0) [
  | yes even ↦
      let half : v / 2 * 2 ≡ v = omega arith in
      let pred_half : (v - 1) / 2 ≡ v / 2 - 1 = omega arith in
      let rec : bit_and (v / 2) (v / 2 - 1) ≡ 0 =
        omega (arith, bit_and-digit v (v - 1), ap (bit_and (v / 2)) pred_half) in
      rw half at (even_power (v / 2) (power_below f (v / 2) (omega arith) (omega arith) rec))
  | no odd ↦
      let same : (v - 1) / 2 ≡ v / 2 = omega arith in
      (0, omega (arith, bit_and-digit v (v - 1), ap (bit_and (v / 2)) same, bit_and_self (v / 2)))
]

pub power_of_bit_and : (v : ℕ) → v ≢ 0 → bit_and v (v - 1) ≡ 0 → (k : ℕ) × (v ≡ 2 ^ k)
power_of_bit_and v n e = power_below v v (omega arith) n e

-- `x & ~63` on 64 bits clears the last six digits.
pub bit_and_not63 : (x : ℕ) → x < 2 ^ 64 → bit_and x (2 ^ 64 - 64) ≡ x - x % 64
bit_and_not63 x h = omega (
  arith,
  bit_and-digit x (2 ^ 64 - 64),
  bit_and-digit (x / 2) (2 ^ 63 - 32),
  bit_and-digit (x / 2 / 2) (2 ^ 62 - 16),
  bit_and-digit (x / 2 / 2 / 2) (2 ^ 61 - 8),
  bit_and-digit (x / 2 / 2 / 2 / 2) (2 ^ 60 - 4),
  bit_and-digit (x / 2 / 2 / 2 / 2 / 2) (2 ^ 59 - 2),
  bit_and_ones 58 (x / 2 / 2 / 2 / 2 / 2 / 2),
)
