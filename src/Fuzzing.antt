-- ===== src/Fuzzing.antt =====
-- fuzzing/fuzz_bc_concurrency_queue.c: the fuzzing driver of the queue, which creates a queue, plays the
-- calls that its input encodes, and destroys the queue.
pub mod Returns
mod Tests
use Prim.Native.Nat.{bit_or}
use bc_concurrency.Base.{
  ℕ, zero, suc, ◌+◌, ◌*◌, ◌%◌, ◌^◌, bit_and, Option, none, some, leb, ltb, ◌==◌, if◌then◌else◌,
}
use bc_concurrency.Base.Words.{u64}
use bc_concurrency.Allocator.{Allocator}
use bc_concurrency.Queue.{Shape, Cells, create, destroy}
use bc_concurrency.Queue.Fifo.{Reply, push, pop, close}
use bc_concurrency.Queue.Calls.{serve}

-- `(uint32_t)byte << bits`
abbrev pub shifted : ℕ → ℕ → ℕ
shifted byte bits = (byte * 2 ^ bits) % 2 ^ 32

-- The four bytes of the input from `position` on, the lowest first.
unfoldable pub element_at : (ℕ → ℕ) → ℕ → ℕ
element_at data_ position =
    bit_or
      (bit_or (bit_or (data_ position) (shifted (data_ (position + 1)) 8))
        (shifted (data_ (position + 2)) 16))
      (shifted (data_ (position + 3)) 24)

-- The cells after a call whose answer is ignored; `none` where it does not return.
abbrev pub ignoring : {A : Type 0} → Option (Cells A × Reply A) → Option (Cells A)
ignoring none = none
ignoring (some (q, r)) = some q

-- The calls of one round. The two queries of operation 3 change nothing.
unfoldable pub run_operation : Shape → Cells ℕ → ℕ → ℕ → Option (Cells ℕ)
run_operation g q operation element =
    if operation == 0
    then ignoring (serve g q (push element))
    else if operation == 1
    then ignoring (serve g q pop)
    else if operation == 2
    then ignoring (serve g q close)
    else if operation == 3
    then some q
    else elim (ignoring (serve g q (push element))) [
      | none ↦ none
      | some q' ↦ ignoring (serve g q' pop)
    ]

-- `while (position + 5 <= size)`, on fuel.
unfoldable pub fuzz_loop : ℕ → (ℕ → ℕ) → ℕ → ℕ → Shape → Cells ℕ → Option (Cells ℕ)
fuzz_loop zero data_ size position g q = none
fuzz_loop (suc fuel) data_ size position g q =
    let operation = bit_and (data_ position) 7 in
    let rest : Option (Cells ℕ) =
      elim (run_operation g q operation (element_at data_ (position + 1))) [
        | none ↦ none
        | some q' ↦ fuzz_loop fuel data_ size (u64 (position + 5)) g q'
      ] in
    if leb (u64 (position + 5)) size then rest else some q

module _ (a : Allocator) where
  -- LLVMFuzzerTestOneInput, which always answers 0. `created` is the pool of the memory context, `none`
  -- where bc_allocators_context_create returns false. The result is the pool that
  -- bc_allocators_context_destroy is given, and the outer `none` says that the fuel was used up.
  unfoldable pub fuzz_one : ℕ → Option a.Heap → (ℕ → ℕ) → ℕ → Option (Option a.Heap)
  fuzz_one fuel none data_ size = some none
  fuzz_one fuel (some h) data_ size =
      let run : Option (Option a.Heap) = elim (create a {A = ℕ} fuel 0 h 4 (data_ 0 % 63 + 2)) [
        | none ↦ none
        | some (h', none) ↦ some (some h')
        | some (h', some queue) ↦ elim (fuzz_loop fuel data_ size 1 queue.shape queue.cells) [
          | none ↦ none
          | some q ↦ some (some (destroy a h' (record queue { cells = q })))
        ]
      ] in
      if ltb size 2 then some none else run
