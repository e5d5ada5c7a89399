-- ===== src/ParallelFor/Iterations.antt =====
-- The serial loop that the parallel one stands for, and the number of its rounds.
use native.Mathlib.Nat.{div-add-mod, mod-lt, mod-eq_of_lt}
use bc_concurrency.Base.{
  ℕ, zero, suc, ◌+◌, ◌-◌, ◌*◌, ◌/◌, ◌^◌, ◌≤◌, ◌<◌, ◌≡◌, ◌∙◌, ap, ap₂, refl, List, [], ◌∷◌, ◌++◌,
  arith, ltb, if◌then◌else◌,
}
use bc_concurrency.Base.Words.{u64, sub64}
use bc_concurrency.ParallelFor.{iterate, total_iterations}

-- `for (i = start; i < end; i += step) fn(i, arg);` over the integers, where nothing wraps.
unfoldable pub serial : ℕ → ℕ → ℕ → ℕ → List ℕ
serial zero start end step = []
serial (suc fuel) start end step =
    let rest = serial fuel (start + step) end step in if ltb start end then start ∷ rest else []

-- `n` indices from `start`.
unfoldable pub progression : ℕ → ℕ → ℕ → List ℕ
progression zero start step = []
progression (suc n) start step = start ∷ progression n (start + step) step

-- The loop runs for the indices below `end`, and any fuel above their number is enough.
pub serial-progression :
    (n fuel start end step : ℕ)
    → 0 < step
    → n < fuel
    → end ≤ start + n * step
    → start + n * step < end + step
    → serial fuel start end step ≡ progression n start step
unfolding serial progression
serial-progression zero (suc fuel) start end step pos f hi lo = ground arith
serial-progression (suc n) (suc fuel) start end step pos f hi lo =
    ground (arith, serial-progression n fuel (start + step) end step pos)
serial-progression n zero start end step pos f hi lo = absurd (omega arith)

pub div_le : (n m : ℕ) → 0 < m → n / m ≤ n
div_le n m h = grind (arith, div-add-mod n m)

-- The rounds reach `end`, and one fewer does not.
pub total_iterations_lem :
    (start end step : ℕ)
    → start < end
    → end < 2 ^ 64
    → 0 < step
    → (end ≤ start + total_iterations start end step * step)
      × (start + total_iterations start end step * step < end + step)
      × (total_iterations start end step ≤ end - start)
unfolding total_iterations
total_iterations_lem start end step h small pos =
    grind (arith, unwrapped, div_le d step pos, div-add-mod d step, mod-lt d pos)
  where
    d : ℕ
    d = end - start - 1

    whole : sub64 (sub64 end start) 1 ≡ d
    whole = omega arith

    unwrapped : total_iterations start end step ≡ 1 + d / step
    unwrapped = ap (λ x. u64 (1 + x / step)) whole ∙ mod-eq_of_lt (omega (arith, div_le d step pos))

-- Below 2 ^ 64 the indices of the loop do not wrap.
pub iterate-progression :
    (n i start step : ℕ)
    → start + (i + n) * step < 2 ^ 64 + step
    → iterate n i start step ≡ progression n (start + i * step) step
unfolding iterate progression
iterate-progression zero i start step h = refl
iterate-progression (suc n) i start step h = ap₂ ◌∷◌ here (
    iterate-progression n (i + 1) start step (omega (arith, h, ap (λ t. t * step) assoc))
    ∙ ap (λ k. progression n k step) shift)
  where
    here : u64 (start + u64 (i * step)) ≡ start + i * step
    here = grind arith

    assoc : i + suc n ≡ i + 1 + n
    assoc = omega arith

    shift : start + (i + 1) * step ≡ start + i * step + step
    shift = grind arith

pub progression-append :
    (n m start step : ℕ)
    → progression (n + m) start step
      ≡ progression n start step ++ progression m (start + n * step) step
unfolding progression
progression-append zero m start step = ground arith
progression-append (suc n) m start step =
    ap (λ k. progression k start step) sum
    ∙ ap (λ l. start ∷ l)
        (progression-append n m (start + step) step
          ∙ ap (λ k. progression n (start + step) step ++ progression m k step) shift)
  where
    sum : suc n + m ≡ suc (n + m)
    sum = omega arith

    shift : start + step + n * step ≡ start + suc n * step
    shift = grind arith
