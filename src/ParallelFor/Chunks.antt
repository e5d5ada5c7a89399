-- ===== src/ParallelFor/Chunks.antt =====
-- How the iterations are shared out among the main thread and the workers.
use native.Mathlib.Nat.{div-add-mod, mod-lt}
use native.Mathlib.Decide.{ℕ_discrete}
use bc_concurrency.Base.{
  ℕ, zero, suc, ◌+◌, ◌-◌, ◌*◌, ◌/◌, ◌%◌, ◌^◌, ◌≤◌, ◌<◌, ◌≡◌, ◌∙◌, ap, ap₂, sym, ◌++◌, arith, ltb,
  if◌then◌else◌,
}
use bc_concurrency.Base.Words.{u64}
use bc_concurrency.ParallelFor.{iterate, chunk_runner, chunk_count, worker_chunks, run_chunks}
use bc_concurrency.ParallelFor.Iterations.{
  progression, progression-append, iterate-progression, div_le,
}

pub mul_le : (a b c : ℕ) → a ≤ b → a * c ≤ b * c
mul_le a b c h = grind arith

module _ (total n : ℕ) where
  -- The iterations of the chunks below `i`.
  unfoldable pub before : ℕ → ℕ
  before zero = 0
  before (suc i) = before i + chunk_count total n i

  -- The chunks below `i` have `total / n` iterations each, and one more while there is a remainder.
  before-eq :
      (i : ℕ)
      → total < 2 ^ 64
      → 0 < n
      → before i ≡ i * (total / n) + (if ltb i (total % n) then i else total % n)
  unfolding before chunk_count
  before-eq zero small pos = ground arith
  before-eq (suc i) small pos = grind (arith, before-eq i small pos, div_le total n pos)

  -- All of them together have every iteration.
  pub before_all : total < 2 ^ 64 → 0 < n → before n ≡ total
  before_all small pos =
      ground (arith, before-eq n small pos, div-add-mod total n, mod-lt total pos)

  before_mono : (j i : ℕ) → i ≤ j → before i ≤ before j
  unfolding before
  before_mono zero i h = omega (arith, ap before at_zero)
    where
      at_zero : i ≡ 0
      at_zero = omega arith
  before_mono (suc j) i h = elim (ℕ_discrete i (suc j)) [
    | yes e ↦ omega (arith, ap before e)
    | no ne ↦ omega (arith, before_mono j i (omega arith))
  ]

  pub before-le : (i : ℕ) → i ≤ n → total < 2 ^ 64 → 0 < n → before i ≤ total
  before-le i h small pos = omega (arith, before_mono n i h, before_all small pos)

  -- With an iteration for everybody, no chunk is empty.
  pub chunk_count_pos : (i : ℕ) → n ≤ total → total < 2 ^ 64 → 0 < n → 0 < chunk_count total n i
  unfolding chunk_count
  chunk_count_pos i enough small pos =
      grind (arith, div-add-mod total n, mod-lt total pos, div_le total n pos)

  -- For fewer than 2 ^ 64 iterations and at least one chunk, no chunk has more than one iteration more
  -- than another.
  chunk_count_fair :
      (i j : ℕ) → total < 2 ^ 64 → 0 < n → chunk_count total n i ≤ chunk_count total n j + 1
  unfolding chunk_count
  chunk_count_fair i j small pos = ground (arith, div_le total n pos)

  module _ (start step : ℕ) where
    -- The chunk of `count` iterations from iteration `offset` on makes exactly those calls.
    one_chunk :
        (offset count : ℕ)
        → start + total * step < 2 ^ 64 + step
        → 0 < count
        → offset + count ≤ total
        → chunk_runner (record {
          start_iteration_index = u64 (start + u64 (offset * step));
          iteration_count = count;
          step_size = step;
        })
          ≡ progression count (start + offset * step) step
    unfolding chunk_runner
    one_chunk offset count fits pos inside =
        ap (λ s. iterate count 0 s step) begins
        ∙ iterate-progression count 0 (start + offset * step) step ends
        ∙ ap (λ s. progression count s step) (omega arith)
      where
        begins : u64 (start + u64 (offset * step)) ≡ start + offset * step
        begins = grind (arith, mul_le (offset + 1) total step (omega arith))

        ends : start + offset * step + (0 + count) * step < 2 ^ 64 + step
        ends = grind (arith, mul_le (offset + count) total step inside)

    -- The chunks of the workers from `i` on, begun where the chunks before them end, make the rest of
    -- the calls.
    pub worker_chunks_rest :
        (k i offset : ℕ)
        → start + total * step < 2 ^ 64 + step
        → total < 2 ^ 64
        → n ≤ total
        → i + 1 + k ≡ n
        → offset ≡ before (i + 1)
        → run_chunks (worker_chunks total n start step k i offset)
          ≡ progression (total - offset) (start + offset * step) step
    unfolding worker_chunks run_chunks before progression
    worker_chunks_rest zero i offset fits small enough e o =
        ap (λ k. progression k (start + offset * step) step) nothing_left
      where
        last : i + 1 ≡ n
        last = omega arith

        nothing_left : 0 ≡ total - offset
        nothing_left = omega (arith, ap before last, before_all small (omega arith))
    worker_chunks_rest (suc k) i offset fits small enough e o =
        ap₂ ◌++◌ (one_chunk offset count fits some_left inside) (
          worker_chunks_rest k (i + 1) (u64 (offset + count)) fits small enough (omega arith) next
          ∙ ap₂ (λ t s. progression t s step) fewer moved)
        ∙ sym (progression-append count (total - offset - count) (start + offset * step) step)
        ∙ ap (λ t. progression t (start + offset * step) step) together
      where
        count : ℕ
        count = chunk_count total n (i + 1)

        some_left : 0 < count
        some_left = chunk_count_pos (i + 1) enough small (omega arith)

        bump : i + 1 + 1 ≡ suc (i + 1)
        bump = omega arith

        inside : offset + count ≤ total
        inside =
            omega (arith, ap before bump, before-le (i + 1 + 1) (omega arith) small (omega arith))

        whole : u64 (offset + count) ≡ offset + count
        whole = omega (arith, inside)

        next : u64 (offset + count) ≡ before (i + 1 + 1)
        next = omega (arith, whole, ap before bump)

        fewer : total - u64 (offset + count) ≡ total - offset - count
        fewer = omega (arith, whole)

        moved : start + u64 (offset + count) * step ≡ start + offset * step + count * step
        moved = rw whole (grind arith)

        together : count + (total - offset - count) ≡ total - offset
        together = omega (arith, inside)
