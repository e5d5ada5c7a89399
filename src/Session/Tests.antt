-- ===== src/Session/Tests.antt =====
-- A session on a context with two workers: a slot, five tasks and a dispatch, a loop, and one task more.
use bc_concurrency.Base.{ℕ, ◌*◌, ◌≡◌, refl, true, false, some, List, [], ◌∷◌, ◌++◌, arith}
use bc_concurrency.Allocator.Bump.{empty_heap, bump_allocator, bump_allocator-IsAllocator}
use bc_concurrency.Context.{create, destroy}
use bc_concurrency.Context.Example.{
  vectors-IsAllocator, sizes, start, two_plan, able, made, create_made,
}
use bc_concurrency.Dispatch.Submission.{Entry}
use bc_concurrency.Session.{
  Action, register, stage, stage_batch, dispatch, loop, Session, perform_all, submitted,
}
use bc_concurrency.Session.Example.{moving, moving-IsStaging}
use bc_concurrency.Session.Restores.{opened, session_restores}
use bc_concurrency.Session.Tasks.{answers, Accepted, session_order}

abbrev calls : List (Action ℕ ℕ)
calls =
    register (record { size = 64; has_init = true; has_destroy = true })
    ∷ stage 9 5
    ∷ stage_batch 9 (λ i. i * i) 4
    ∷ dispatch
    ∷ loop 0 10 3
    ∷ stage 9 7
    ∷ []

six_tasks : submitted calls ≡ 6
unfolding submitted
six_tasks = refl

session_restores_example :
    (s : Session bump_allocator ℕ ℕ) × (perform_all bump_allocator moving true 64 32 calls
        (opened ℕ ℕ (create bump_allocator able sizes two_plan start).0 made)
      ≡ some s)
    × (bump_allocator.live (destroy bump_allocator able sizes s.context s.machine).heap
        ≡ bump_allocator.live empty_heap)
    × ((i : ℕ)
        → ((destroy bump_allocator able sizes s.context s.machine).memories i ≡ false)
          × ((destroy bump_allocator able sizes s.context s.machine).locks i ≡ false))
session_restores_example =
    session_restores bump_allocator able sizes moving bump_allocator-IsAllocator vectors-IsAllocator
      moving-IsStaging true 64 32 two_plan start calls made (omega arith) (λ i. (refl, refl))
      (omega arith) (omega (arith, six_tasks)) create_made

session_order_example :
    (s : Session bump_allocator ℕ ℕ) × (l : List (Entry ℕ ℕ)) × (perform_all bump_allocator moving
        true 64 32 calls
        (opened ℕ ℕ (create bump_allocator able sizes two_plan start).0 made)
      ≡ some s)
    × Accepted bump_allocator moving calls
        (answers bump_allocator moving true 64 32 calls
          (opened ℕ ℕ (create bump_allocator able sizes two_plan start).0 made))
        l
    × (s.completed ++ s.staged ≡ l)
session_order_example =
    session_order bump_allocator able sizes moving bump_allocator-IsAllocator vectors-IsAllocator
      moving-IsStaging true 64 32 two_plan start calls made (omega arith) (λ i. (refl, refl))
      (omega arith) (omega (arith, six_tasks)) create_made
