-- ===== src/Pool/ForRun.antt =====
-- A parallel loop over the workers: what each thread runs.
use mathlib.Core.List.{append-nil}
use bc_concurrency.Base.{
  ℕ, zero, suc, ◌+◌, ◌-◌, ◌^◌, ◌<◌, ◌≤◌, ◌≡◌, refl, sym, ap, ap₂, ◌∙◌, List, [], ◌∷◌, ◌++◌, length,
  get_elem?, map, arith,
}
use bc_concurrency.Base.Words.{u64}
use bc_concurrency.Dispatch.{assigned}
use bc_concurrency.Dispatch.Exact.{concat}
use bc_concurrency.ParallelFor.{
  Chunk, chunk_count, chunk_runner, iterate, worker_chunks, run_chunks, total_iterations,
}
use bc_concurrency.ParallelFor.Iterations.{serial}
use bc_concurrency.ParallelFor.Equivalence.{total, all_calls, serial-eq}
use bc_concurrency.Pool.{Pool, start_pool, Reach}
use bc_concurrency.Pool.Balance.{free, balanced, in_range, tasks_for, own_tasks}
use bc_concurrency.Pool.Runs.{IsScript}
use bc_concurrency.Pool.Safety.{IsFinished, finished_ran}
use bc_concurrency.Pool.Scripts.{round, chunk_works, one_call, for_script}
use bc_concurrency.Pool.Rounds.{round_lem}
use bc_concurrency.Pool.DispatchRun.{gather, gather-concat, gather-eq}

concat-one_call : (xs : List ℕ) → concat (map one_call xs) ≡ xs
unfolding concat
concat-one_call [] = refl
concat-one_call (x ∷ xs) = ap (λ l. x ∷ l) (concat-one_call xs)

concat-works : (cs : List Chunk) → concat (concat (chunk_works cs)) ≡ run_chunks cs
unfolding concat chunk_works run_chunks
concat-works [] = refl
concat-works (c ∷ cs) = ap (λ l. chunk_runner c ++ l) (concat-works cs)

length-works :
    (all n start step k i offset : ℕ)
    → length (chunk_works (worker_chunks all n start step k i offset)) ≡ k
unfolding chunk_works worker_chunks
length-works all n start step zero i offset = refl
length-works all n start step (suc k) i offset = ap suc (length-works all n start step k (i + 1) _)

module _ (works : List (List (List ℕ))) (mine : List (List ℕ)) (n : ℕ)
    (fits : length works ≤ n) where
  round-IsScript : IsScript n (round works mine)
  unfolding balanced in_range
  round-IsScript = record {
    turns = λ j.
        ap (balanced j free) (sym (append-nil (round works mine)))
        ∙ (round_lem j n works mine [] fits).0;
    named =
        ap (in_range n) (sym (append-nil (round works mine)))
        ∙ (round_lem 0 n works mine [] fits).1;
  }

  round_run :
      {s : Pool (List ℕ)}
      → Reach n (start_pool (round works mine)) s
      → IsFinished s
      → (s.main_ran ≡ mine) × (gather n 0 (λ i. (s.link i).ran) ≡ concat works)
  unfolding tasks_for own_tasks
  round_run {s} r f =
      let (workers, main) = finished_ran round-IsScript r f in
      (
        main
            ∙ ap own_tasks (sym (append-nil (round works mine)))
            ∙ (round_lem 0 n works mine [] fits).3
            ∙ append-nil mine,
        gather-eq n 0 (λ i. (s.link i).ran) (λ i. assigned (get_elem? works i))
              (λ i.
                workers i
                ∙ ap (tasks_for i) (sym (append-nil (round works mine)))
                ∙ (round_lem i n works mine [] fits).2
                ∙ append-nil (assigned (get_elem? works i)))
            ∙ gather-concat n 0 (λ i. assigned (get_elem? works i)) works fits
                (λ i. ap (λ j. assigned (get_elem? works j)) (omega arith)),
      )

pub for_script-IsScript : (n total start step : ℕ) → IsScript n (for_script n total start step)
unfolding for_script
for_script-IsScript n total start step =
    let chunks = u64 (n + 1) in
    let main_count = chunk_count total chunks 0 in
    round-IsScript (chunk_works (worker_chunks total chunks start step n 0 main_count))
      (map one_call (iterate main_count 0 start step)) n
      (omega (arith, length-works total chunks start step n 0 main_count))

-- For a start below the end, an end below 2 ^ 64, a step above 0, and more rounds than there are
-- workers, which are at least 1 and fewer than 2 ^ 64 - 1: whatever the interleaving, when the main
-- thread has returned from a parallel loop, its calls followed by those of the workers, one after the
-- other, are the calls of the serial loop.
pub for_run :
    (n start end step : ℕ) {s : Pool (List ℕ)}
    → start < end
    → end < 2 ^ 64
    → 0 < step
    → 0 < n
    → n < total_iterations start end step
    → n + 1 < 2 ^ 64
    → Reach n (start_pool (for_script n (total_iterations start end step) start step)) s
    → IsFinished s
    → concat s.main_ran ++ concat (gather n 0 (λ i. (s.link i).ran))
      ≡ serial (suc (end - start)) start end step
unfolding for_script total
for_run n start end step {s} lt small pos some_ enough words r f =
    let chunks = worker_chunks all (u64 (n + 1)) start step n 0 main_count in
    let (mine, works) =
      round_run (chunk_works chunks) (map one_call (iterate main_count 0 start step)) n
        (omega (arith, length-works all (u64 (n + 1)) start step n 0 main_count)) r f in
    ap₂ ◌++◌ (ap concat mine ∙ concat-one_call (iterate main_count 0 start step))
      (ap concat works ∙ concat-works chunks)
    ∙ ap
        (λ k.
          iterate (chunk_count all k 0) 0 start step
          ++ run_chunks (worker_chunks all k start step n 0 (chunk_count all k 0)))
        num_chunks
    ∙ all_calls start end step lt small pos n some_ enough
    ∙ sym (serial-eq start end step lt small pos)
  where
    all : ℕ
    all = total_iterations start end step

    main_count : ℕ
    main_count = chunk_count all (u64 (n + 1)) 0

    num_chunks : u64 (n + 1) ≡ suc n
    num_chunks = omega arith
