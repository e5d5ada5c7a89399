-- ===== src/Queue/Sizing.antt =====
-- The size computations of the queue: rounding up to a power of two, aligning to a cache line.
use native.Mathlib.Nat.{pow-suc, one-le-pow, pow-le-pow_right}
use native.Mathlib.Decide.{dec_lt}
use bc_concurrency.Base.{
  ℕ, zero, suc, ◌+◌, ◌-◌, ◌*◌, ◌%◌, ◌^◌, ◌≤◌, ◌<◌, ◌≡◌, ◌∙◌, ap, refl, ◌≢◌, inl, inr, true, none,
  some, arith, ltb, leb, Bool-cases, bit_and,
}
use bc_concurrency.Base.Bits.{power-bit_and_pred, power_of_bit_and, bit_and_not63}
use bc_concurrency.Base.Words.{u64, sub64}
use bc_concurrency.Queue.{
  is_power_of_two, round_loop, round_up_power_of_two, align_up, effective_capacity, cacheline_bytes,
}

pub pow_63 : (j : ℕ) → j ≤ 63 → 2 ^ j ≤ 2 ^ 63
pow_63 j h = pow-le-pow_right {n = 2} (omega arith) h

pub power_is_power_of_two : (k : ℕ) → k ≤ 63 → is_power_of_two (2 ^ k) ≡ true
unfolding is_power_of_two
power_is_power_of_two k h =
    ground (arith, pow_63 k h, one-le-pow k 2, power-bit_and_pred k, ap (bit_and (2 ^ k)) pred)
  where
    pred : sub64 (2 ^ k) 1 ≡ 2 ^ k - 1
    pred = omega (arith, pow_63 k h, one-le-pow k 2 (omega arith))

-- A value below 2 ^ 64 that passes the test is a power of two.
is_power_of_two_sound :
    (value : ℕ) → value < 2 ^ 64 → is_power_of_two value ≡ true → (k : ℕ) × (value ≡ 2 ^ k)
unfolding is_power_of_two
is_power_of_two_sound value h t =
    let nonzero : value ≢ 0 = ground arith in
    let pred : sub64 value 1 ≡ value - 1 = omega arith in
    power_of_bit_and value nonzero (ground (arith, ap (bit_and value) pred))

-- The least power of two from `value` on.
pub record IsRounded (value c : ℕ) : Type 0 where
  pub exponent : ℕ
  pub power : c ≡ 2 ^ exponent
  pub small : exponent ≤ 63
  pub above : value ≤ c
  pub least : c < 2 * value

stop : (j value : ℕ) → j ≤ 63 → value ≤ 2 ^ j → 2 ^ j < 2 * value → IsRounded value (2 ^ j)
stop j value s a l = record { exponent = j; power = refl; small = s; above = a; least = l }

-- The next power, as the loop computes it.
u64-double : (j : ℕ) → suc j ≤ 63 → u64 (2 ^ j * 2) ≡ 2 ^ suc j
u64-double j h = omega (arith, pow-suc 2 j, pow_63 (suc j) h)

round_loop_lem :
    (r j fuel value : ℕ)
    → j + r ≡ 63
    → r < fuel
    → value ≤ 2 ^ 63
    → 2 ^ j < 2 * value
    → (c : ℕ) × (round_loop fuel (2 ^ j) value ≡ some c) × IsRounded value c
unfolding round_loop
round_loop_lem r j zero value e f v l = absurd (omega arith)
round_loop_lem zero j (suc fuel) value e f v l =
    let last : j ≡ 63 = omega arith in
    let enough : value ≤ 2 ^ j = rw last v in
    (2 ^ j, ground arith, stop j value (omega arith) enough l)
round_loop_lem (suc r) j (suc fuel) value e f v l = elim (Bool-cases (ltb (2 ^ j) value)) [
  | inr enough ↦ (2 ^ j, rw (enough, round_loop), stop j value (omega arith) (ground arith) l)
  | inl more ↦
      let grow : 2 ^ suc j < 2 * value = ground (arith, pow-suc 2 j) in
      rw (more, round_loop, u64-double j (omega arith))
        (round_loop_lem r (suc j) fuel value (omega arith) (omega arith) v grow)
]

-- For a capacity from 1 to 2 ^ 63 the loop ends within 64 rounds, with the least power of two that
-- is not below it.
pub round_up-IsRounded :
    (fuel value : ℕ)
    → 64 ≤ fuel
    → 0 < value
    → value ≤ 2 ^ 63
    → (c : ℕ) × (round_up_power_of_two fuel value ≡ some c) × IsRounded value c
unfolding round_up_power_of_two
round_up-IsRounded fuel value f pos v = elim (Bool-cases (leb value 1)) [
  | inl one ↦ (1, rw one, stop 0 value (omega arith) (ground arith) (ground arith))
  | inr more ↦ rw more (round_loop_lem 63 0 fuel value refl f v (ground arith))
]

round_loop-zero : (fuel value : ℕ) → 0 < value → round_loop fuel 0 value ≡ none
unfolding round_loop
round_loop-zero zero value h = refl
round_loop-zero (suc fuel) value h = ground (arith, round_loop-zero fuel value h)

round_loop-large :
    (r j fuel value : ℕ) → j + r ≡ 63 → 2 ^ 63 < value → round_loop fuel (2 ^ j) value ≡ none
unfolding round_loop
round_loop-large r j zero value e v = refl
round_loop-large zero j (suc fuel) value e v =
    let last : j ≡ 63 = omega arith in
    rw last (ground (arith, round_loop-zero fuel value (omega arith)))
round_loop-large (suc r) j (suc fuel) value e v = ground (
  arith,
  pow_63 j (omega arith),
  ap (λ p. round_loop fuel p value) (u64-double j (omega arith)),
  round_loop-large r (suc j) fuel value (omega arith) v,
)

-- For a value above 2 ^ 63 the rounding loop does not end: no fuel is enough.
pub round_up-large : (fuel value : ℕ) → 2 ^ 63 < value → round_up_power_of_two fuel value ≡ none
unfolding round_up_power_of_two
round_up-large fuel value v = ground (arith, round_loop-large 63 0 fuel value refl v)

pow-le_63 : (k : ℕ) → 2 ^ k ≤ 2 ^ 63 → k ≤ 63
pow-le_63 k h = elim (dec_lt k 64) [
  | yes lt ↦ omega arith
  | no ge ↦
      absurd (omega (arith, pow-le-pow_right {n = 2} (omega arith) {i = 64} {j = k} (omega arith)))
]

-- A power of two is its own rounding.
power-IsRounded : (value k : ℕ) → 0 < value → value ≤ 2 ^ 63 → value ≡ 2 ^ k → IsRounded value value
power-IsRounded value k pos v e = record {
  exponent = k;
  power = e;
  small = pow-le_63 k (omega arith);
  above = omega arith;
  least = omega arith;
}

-- For a capacity from 1 to 2 ^ 63 and 64 rounds of fuel or more, the effective capacity is the least
-- power of two that is not below it.
pub effective_capacity-IsRounded :
    (fuel value : ℕ)
    → 64 ≤ fuel
    → 0 < value
    → value ≤ 2 ^ 63
    → (c : ℕ) × (effective_capacity fuel value ≡ some c) × IsRounded value c
unfolding effective_capacity
effective_capacity-IsRounded fuel value f pos v = elim (Bool-cases (is_power_of_two value)) [
  | inl power ↦
      let (k, e) = is_power_of_two_sound value (omega arith) power in
      (value, rw power, power-IsRounded value k pos v e)
  | inr other ↦ rw other (round_up-IsRounded fuel value f pos v)
]

-- A value from 1 to 2 ^ 64 - 64 aligned to the cache line is a multiple of 64, not below the value,
-- and less than 64 above it.
pub align_up-cacheline :
    (value : ℕ)
    → value + 64 ≤ 2 ^ 64
    → 0 < value
    → (align_up value cacheline_bytes % 64 ≡ 0)
      × (value ≤ align_up value cacheline_bytes)
      × (align_up value cacheline_bytes < value + 64)
unfolding align_up
align_up-cacheline value h pos =
    let sum : sub64 (u64 (value + 64)) 1 ≡ value + 63 = omega arith in
    let cut : align_up value 64 ≡ value + 63 - (value + 63) % 64 =
      ap (λ x. bit_and x (2 ^ 64 - 64)) sum ∙ bit_and_not63 (value + 63) (omega arith) in
    omega (arith, cut)
