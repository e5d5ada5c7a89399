-- ===== src/Pool/Tests.antt =====
-- The theorems on the threads at concrete scripts.
use bc_concurrency.Base.{
  ℕ, suc, ◌-◌, ◌<◌, ◌≤◌, ◌≡◌, ◌≢◌, ◌⊎◌, refl, true, some, List, [], ◌∷◌, ◌++◌, arith, ltb,
}
use bc_concurrency.Worker.{worker_step, lock_worker, gone, crashed}
use bc_concurrency.Worker.Invariant.{main_holds, worker_holds}
use bc_concurrency.ParallelFor.{total_iterations}
use bc_concurrency.ParallelFor.Iterations.{serial}
use bc_concurrency.Dispatch.{assignments, assignment_count}
use bc_concurrency.Dispatch.Exact.{concat}
use bc_concurrency.Pool.{
  Pool, next_command, start_pool, main, worker, main_thread_step, worker_thread_step, Reach, here,
  later,
}
use bc_concurrency.Pool.Safety.{IsFinished, exclusive}
use bc_concurrency.Pool.Rank.{pool_rank}
use bc_concurrency.Pool.Progress.{Quiet-Reach, CanMove, can_finish, always_returns}
use bc_concurrency.Pool.Scripts.{dispatch_script, for_script, session, sends, awaits, owns, round}
use bc_concurrency.Pool.DispatchRun.{gather, dispatch-IsScript, dispatch_run}
use bc_concurrency.Pool.ForRun.{for_script-IsScript, for_run}
use bc_concurrency.Pool.Sessions.{session-IsScript}
use bc_concurrency.Pool.Shutdown.{session_gone}
use bc_concurrency.Spawning.{
  Answers, create_threads, spawn_workers, stop_started, join_started, ensure_workers_spawned,
  new_crew,
}
use bc_concurrency.Pool.Doomed.{awaited, crew_pool, retry_hangs}

abbrev five_tasks : List ℕ
five_tasks = 10 ∷ 11 ∷ 12 ∷ 13 ∷ 14 ∷ []

abbrev after_dispatch : Pool ℕ
after_dispatch = (can_finish (dispatch-IsScript 2 five_tasks) here).1

after_dispatch-Reach : Reach 2 (start_pool (dispatch_script 2 five_tasks)) after_dispatch
after_dispatch-Reach = Quiet-Reach here (can_finish (dispatch-IsScript 2 five_tasks) here).2

after_dispatch-IsFinished : IsFinished after_dispatch
after_dispatch-IsFinished = (can_finish (dispatch-IsScript 2 five_tasks) here).3

dispatch_run_example :
    gather 2 0 (λ i. (after_dispatch.link i).ran) ++ after_dispatch.main_ran ≡ five_tasks
dispatch_run_example =
    dispatch_run 2 five_tasks (omega arith) (omega arith) after_dispatch-Reach
      after_dispatch-IsFinished

abbrev looped : Pool (List ℕ)
looped = (can_finish (for_script-IsScript 2 (total_iterations 0 10 3) 0 3) here).1

looped-Reach : Reach 2 (start_pool (for_script 2 (total_iterations 0 10 3) 0 3)) looped
looped-Reach =
    Quiet-Reach here (can_finish (for_script-IsScript 2 (total_iterations 0 10 3) 0 3) here).2

looped-IsFinished : IsFinished looped
looped-IsFinished = (can_finish (for_script-IsScript 2 (total_iterations 0 10 3) 0 3) here).3

enough_rounds : 2 < total_iterations 0 10 3
unfolding total_iterations
enough_rounds = omega arith

for_run_example :
    concat looped.main_ran ++ concat (gather 2 0 (λ i. (looped.link i).ran))
    ≡ serial (suc (10 - 0)) 0 10 3
for_run_example =
    for_run 2 0 10 3 (omega arith) (omega arith) (omega arith) (omega arith) enough_rounds
      (omega arith) looped-Reach looped-IsFinished

abbrev two_rounds : List (List ℕ)
two_rounds = five_tasks ∷ (20 ∷ 21 ∷ 22 ∷ []) ∷ []

abbrev ended : Pool ℕ
ended = (can_finish (session-IsScript 2 two_rounds) here).1

ended-Reach : Reach 2 (start_pool (session 2 two_rounds)) ended
ended-Reach = Quiet-Reach here (can_finish (session-IsScript 2 two_rounds) here).2

ended-IsFinished : IsFinished ended
ended-IsFinished = (can_finish (session-IsScript 2 two_rounds) here).3

exclusive_example :
    (¬ ((main_holds (ended.link 1).main ≡ true) × (worker_holds (ended.link 1).worker ≡ true)))
    × ((ended.link 1).worker ≢ crashed)
exclusive_example = exclusive (session-IsScript 2 two_rounds) ended-Reach 1

always_returns_example :
    ((can_finish (session-IsScript 2 two_rounds) here).0
      ≤ pool_rank 2 (start_pool (session 2 two_rounds)))
    × (IsFinished ended ⊎ CanMove 2 ended)
always_returns_example =
    always_returns (session-IsScript 2 two_rounds) here
      (can_finish (session-IsScript 2 two_rounds) here).2

session_gone_example :
    ((can_finish (session-IsScript 2 two_rounds) here).0
      ≤ pool_rank 2 (start_pool (session 2 two_rounds)))
    × (CanMove 2 ended ⊎ (IsFinished ended × ((ended.link 1).worker ≡ gone)))
session_gone_example =
    session_gone 2 two_rounds 1 (omega arith) here
      (can_finish (session-IsScript 2 two_rounds) here).2

-- The second thread of the first attempt cannot be created.
abbrev first_answers : Answers
first_answers = record { attr_init = true; attr_setstacksize = true; create = λ i. ltb i 1 }

abbrev second_answers : Answers
second_answers = record { attr_init = true; attr_setstacksize = true; create = λ _. true }

fails_at_first : (create_threads first_answers.create 2 0 new_crew).1 ≡ some 1
unfolding create_threads
fails_at_first = refl

succeeds :
    (ensure_workers_spawned second_answers 2 (ensure_workers_spawned first_answers 2 new_crew).0).1
    ≡ true
unfolding ensure_workers_spawned spawn_workers create_threads stop_started join_started
succeeds = refl

abbrev hung : Pool ℕ
hung =
    crew_pool
      (ensure_workers_spawned second_answers 2
        (ensure_workers_spawned first_answers 2 new_crew).0).0
      (dispatch_script 2 five_tasks)

waits_for_first : awaited 0 (dispatch_script 2 five_tasks) ≡ true
unfolding awaited dispatch_script sends awaits owns round assignments assignment_count
waits_for_first = refl

-- The first worker sees `should_stop`, and the main thread begins to hand work to it.
hung_moves : (s : Pool ℕ) × Reach 2 hung s
unfolding worker_thread_step main_thread_step next_command worker_step lock_worker
    ensure_workers_spawned spawn_workers create_threads stop_started join_started dispatch_script
    sends awaits owns round assignments assignment_count
hung_moves = (
  _,
  later (later (later here (worker 0 (omega arith) refl)) (worker 0 (omega arith) refl))
      (main refl),
)

retry_hangs_example : (¬ IsFinished hung_moves.0) × ((hung_moves.0.link 0).ran ≡ [])
retry_hangs_example =
    retry_hangs first_answers second_answers 2 1 new_crew (dispatch_script 2 five_tasks) 0 refl refl
      refl fails_at_first succeeds (omega arith) waits_for_first hung_moves.1
