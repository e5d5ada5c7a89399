-- ===== src/Fuzzing/Tests.antt =====
-- The driver on an input of twelve bytes: a capacity of 2 and two rounds.
use bc_concurrency.Base.{ℕ, ◌*◌, ◌≡◌, arith, some}
use bc_concurrency.Allocator.Bump.{BumpHeap, empty_heap, bump_allocator, bump_allocator-IsAllocator}
use bc_concurrency.Fuzzing.{fuzz_one}
use bc_concurrency.Fuzzing.Returns.{fuzz_returns}

abbrev eights : ℕ → ℕ
eights i = i * 8

fuzz_returns_example :
    (h' : BumpHeap) × (fuzz_one bump_allocator 64 (some empty_heap) eights 12 ≡ some (some h'))
    × ((p : ℕ) → bump_allocator.live h' p ≡ bump_allocator.live empty_heap p)
fuzz_returns_example =
    fuzz_returns bump_allocator bump_allocator-IsAllocator 64 empty_heap eights 12 (omega arith)
      (omega arith) (omega arith) (omega arith)
