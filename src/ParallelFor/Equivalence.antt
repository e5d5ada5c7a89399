-- ===== src/ParallelFor/Equivalence.antt =====
-- The outcomes of the parallel loop, against the serial one of `ParallelFor.Iterations`.
use bc_concurrency.Base.{
  ℕ, suc, ◌+◌, ◌-◌, ◌*◌, ◌^◌, ◌≤◌, ◌<◌, ◌≡◌, ◌≢◌, ◌∙◌, ◌⊎◌, inl, inr, ap, ap₂, sym, Bool, false,
  none, ◌++◌, arith, Option-cases, ◌↔◌,
}
use mathlib.Core.List.{append-nil}
use native.Mathlib.Decide.{dec_lt}
use bc_concurrency.Base.Words.{u64}
use bc_concurrency.Allocator.{Allocator, IsAllocator}
use bc_concurrency.ParallelFor.{
  refused, iterate, chunk_count, worker_chunks, run_chunks, calls, total_iterations, share,
  share_bytes, parallel_for,
}
use bc_concurrency.ParallelFor.Iterations.{
  serial, progression, progression-append, serial-progression, iterate-progression,
  total_iterations_lem,
}
use bc_concurrency.ParallelFor.Chunks.{before, worker_chunks_rest, before-le, mul_le}

module _ (start end step : ℕ) (h : start < end) (small : end < 2 ^ 64) (pos : 0 < step) where
  unfoldable pub total : ℕ
  unfolding total_iterations
  total = total_iterations start end step

  pub serial-eq : serial (suc (end - start)) start end step ≡ progression total start step
  unfolding total
  serial-eq =
      let (hi, lo, few) = total_iterations_lem start end step h small pos in
      serial-progression total (suc (end - start)) start end step pos (omega arith) hi lo

  fits : start + total * step < 2 ^ 64 + step
  unfolding total
  fits = let (hi, lo, few) = total_iterations_lem start end step h small pos in omega arith

  -- `count` iterations from the first one, as the main thread makes them.
  main_calls :
      (count : ℕ) → count ≤ total → iterate count 0 start step ≡ progression count start step
  main_calls count le =
      iterate-progression count 0 start step (grind (arith, fits, mul_le count total step le))
      ∙ ap (λ s. progression count s step) (omega arith)

  -- The main thread's share and the workers' chunks, for `n` workers and themselves.
  pub all_calls :
      (n : ℕ)
      → 0 < n
      → n < total
      → iterate (chunk_count total (suc n) 0) 0 start step
          ++ run_chunks (worker_chunks total (suc n) start step n 0 (chunk_count total (suc n) 0))
        ≡ progression total start step
  unfolding before total
  all_calls n some_ enough =
      ap₂ ◌++◌ (main_calls main inside) (
        worker_chunks_rest total (suc n) start step n 0 main fits in_words enough (omega arith)
          first)
      ∙ sym (progression-append main (total - main) start step)
      ∙ ap (λ t. progression t start step) whole
    where
      main : ℕ
      main = chunk_count total (suc n) 0

      in_words : total < 2 ^ 64
      in_words = let (hi, lo, few) = total_iterations_lem start end step h small pos in omega arith

      first : main ≡ before total (suc n) (0 + 1)
      first = omega arith

      inside : main ≤ total
      inside =
          omega (arith, first, before-le total (suc n) (0 + 1) (omega arith) in_words (omega arith))

      whole : main + (total - main) ≡ total
      whole = omega (arith, inside)

module _ (a : Allocator) where
  share-calls :
      (h : a.Heap) (n start end step : ℕ)
      → start < end
      → end < 2 ^ 64
      → 0 < step
      → 0 < n
      → n < total_iterations start end step
      → n + 1 < 2 ^ 64
      → (share a h n (total_iterations start end step) start step).1 ≢ refused
      → calls (share a h n (total_iterations start end step) start step).1
        ≡ progression (total_iterations start end step) start step
  unfolding share calls total
  share-calls h n start end step lt small pos some_ enough words ok =
      ground (arith, all_calls start end step lt small pos n some_ enough, num_chunks)
    where
      num_chunks : u64 (n + 1) ≡ suc n
      num_chunks = omega arith

  -- For an end below 2 ^ 64 and fewer than 2 ^ 64 - 1 workers, the calls of a parallel loop that is not
  -- refused, the main thread's first and then each worker's in turn, are those of the serial loop
  -- `for (i = start; i < end; i += step)` over the integers.
  pub parallel_for-serial :
      (spawned : Bool) (h : a.Heap) (thread_count start end step : ℕ)
      → thread_count + 1 < 2 ^ 64
      → end < 2 ^ 64
      → (parallel_for a spawned h thread_count start end step).1 ≢ refused
      → calls (parallel_for a spawned h thread_count start end step).1
        ≡ serial (suc (end - start)) start end step
  unfolding parallel_for calls run_chunks total serial
  parallel_for-serial spawned h n start end step words small ok = elim (dec_lt 0 step) [
    | no none_ ↦ ground arith
    | yes pos ↦ elim (dec_lt start end) [
      | no empty ↦ ground arith
      | yes lt ↦ elim (dec_lt n (total_iterations start end step)) [
        | no few ↦ ground (
          arith,
          main_calls start end step lt small pos (total_iterations start end step),
          serial-eq start end step lt small pos,
          append-nil (progression (total_iterations start end step) start step),
        )
        | yes enough ↦ elim (dec_lt 0 n) [
          | no alone ↦ ground (
            arith,
            main_calls start end step lt small pos (total_iterations start end step),
            serial-eq start end step lt small pos,
            append-nil (progression (total_iterations start end step) start step),
          )
          | yes some_ ↦ ground (
            arith,
            share-calls h n start end step lt small pos some_ enough words,
            serial-eq start end step lt small pos,
          )
        ]
      ]
    ]
  ]

  -- A parallel loop is refused exactly when its step is 0, or when it has more rounds than there are
  -- background workers, and at least one worker, and the workers do not start or the allocation fails.
  pub parallel_for_refused :
      (spawned : Bool) (h : a.Heap) (thread_count start end step : ℕ)
      → ((parallel_for a spawned h thread_count start end step).1 ≡ refused) ↔ (
          (step ≡ 0)
          ⊎ ((start < end)
              × (0 < thread_count)
              × (thread_count < total_iterations start end step)
              × ((spawned ≡ false) ⊎ ((a.allocate h (share_bytes thread_count)).1 ≡ none))))
  unfolding parallel_for share
  parallel_for_refused spawned h n start end step = (λ e. ground arith, λ c. ground arith)

  -- Under the allocator's laws, a parallel loop leaves every block live or free as it was, whatever its
  -- outcome.
  pub parallel_for_memory :
      IsAllocator a
      → (spawned : Bool) (h : a.Heap) (thread_count start end step p : ℕ)
      → a.live (parallel_for a spawned h thread_count start end step).0 p ≡ a.live h p
  unfolding parallel_for share
  parallel_for_memory laws spawned h n start end step p =
      elim (Option-cases (a.allocate h (share_bytes n)).1) [
        | inl e ↦ ground (arith, laws.allocate_none h (share_bytes n) p)
        | inr (b, e) ↦ ground (
          arith,
          laws.free_live (a.allocate h (share_bytes n)).0 b p,
          laws.allocate_live h (share_bytes n) b p,
          laws.allocate_fresh h (share_bytes n) b,
        )
      ]
