-- ===== src/ParallelFor/Tests.antt =====
-- Concrete parallel loops, and the theorems on them at concrete inputs.
use bc_concurrency.Base.{ℕ, ◌<◌, ◌≡◌, ◌⊎◌, ◌↔◌, refl, true, false, none, [], ◌∷◌, arith}
use bc_concurrency.Allocator.Bump.{empty_heap, bump_allocator, bump_allocator-IsAllocator}
use bc_concurrency.ParallelFor.{
  Outcome, refused, ran, iterate, calls, total_iterations, chunk_count, worker_chunks, share_bytes,
  share, parallel_for,
}
use bc_concurrency.ParallelFor.Iterations.{serial}
use bc_concurrency.ParallelFor.Equivalence.{
  parallel_for-serial, parallel_for_refused, parallel_for_memory,
}

-- `for (i = 5; i < 40; i += 4)`, with two background workers.
abbrev loop : Outcome
loop = (parallel_for bump_allocator true empty_heap 2 5 40 4).1

loop_shares :
    loop
    ≡ ran (5 ∷ 9 ∷ 13 ∷ []) (
        record { start_iteration_index = 17; iteration_count = 3; step_size = 4 }
        ∷ record { start_iteration_index = 29; iteration_count = 3; step_size = 4 }
        ∷ [])
unfolding parallel_for share iterate worker_chunks chunk_count total_iterations
loop_shares = refl

parallel_for-serial_example : calls loop ≡ serial 36 5 40 4
unfolding parallel_for share
parallel_for-serial_example =
    parallel_for-serial bump_allocator true empty_heap 2 5 40 4 (omega arith) (omega arith)
      (ground arith)

abbrev stride : ℕ
stride = 4

parallel_for_refused_example :
    ((parallel_for bump_allocator false empty_heap 2 5 40 stride).1 ≡ refused) ↔ (
      (stride ≡ 0)
      ⊎ ((5 < 40)
          × (0 < 2)
          × (2 < total_iterations 5 40 stride)
          × ((false ≡ false) ⊎ ((bump_allocator.allocate empty_heap (share_bytes 2)).1 ≡ none))))
parallel_for_refused_example = parallel_for_refused bump_allocator false empty_heap 2 5 40 stride

parallel_for_memory_example :
    bump_allocator.live (parallel_for bump_allocator true empty_heap 2 5 40 4).0 4096 ≡ false
parallel_for_memory_example =
    parallel_for_memory bump_allocator bump_allocator-IsAllocator true empty_heap 2 5 40 4 4096
