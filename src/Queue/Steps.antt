-- ===== src/Queue/Steps.antt =====
-- The calls of the queue, one shared access at a time. All accesses are taken in one order: the
-- release store and the acquire load of a slot's sequence number are what the code relies on for it.
use Prim.Native.Nat.{compare, Ordering}
use bc_concurrency.Base.{
  ℕ, ◌+◌, Bool, true, false, ◌&&◌, not, Option, none, some, ◌==◌, if◌then◌else◌, update,
}
use bc_concurrency.Base.Words.{u64, signed_rank}
use bc_concurrency.Queue.{Shape, Cells, slot_sequence, slot_data}

-- Where a thread stands, with the locals that are live there.
pub data Pc (A : Type 0) : Type 0 where
  idle : Pc A
  push_check : A → Pc A  -- before the load of `closed`
  push_load : A → Pc A  -- before a load of `enqueue_position`
  push_look : A → ℕ → Pc A  -- `position` known, before the load of the sequence number
  push_claim : A → ℕ → Pc A  -- difference 0, before the compare-exchange
  push_copy : A → ℕ → Pc A  -- the position is this thread's, before bc_core_copy
  push_publish : A → ℕ → Pc A  -- before the release store
  push_done : Bool → Pc A
  pop_load : Pc A
  pop_look : ℕ → Pc A
  pop_claim : ℕ → Pc A
  pop_copy : ℕ → Pc A
  pop_release : ℕ → A → Pc A
  pop_done : Option A → Pc A  -- `none` where `pop` returns false
  close_store : Pc A
  close_done : Pc A

module _ {A : Type 0} where
  -- The sign of `(int64_t)sequence - (int64_t)position` selects the branch.
  unfoldable pub push_branch : A → ℕ → ℕ → Pc A
  push_branch x position sequence = elim (compare (signed_rank sequence) (signed_rank position)) [
    | Ordering.eq ↦ push_claim x position
    | Ordering.lt ↦ push_done false
    | Ordering.gt ↦ push_load x
  ]

  unfoldable pub pop_branch : ℕ → ℕ → Pc A
  pop_branch position sequence =
      elim (compare (signed_rank sequence) (signed_rank (u64 (position + 1)))) [
        | Ordering.eq ↦ pop_claim position
        | Ordering.lt ↦ pop_done none
        | Ordering.gt ↦ pop_load
      ]

  -- The weak compare-exchange of each side: it may fail with the values equal (`spurious`), and on
  -- failure leaves the current value in `position`.
  unfoldable pub push_exchange : Bool → Cells A → A → ℕ → Cells A × Pc A
  push_exchange spurious q x position =
      if not spurious && q.enqueue_position == position
      then (record q { enqueue_position = u64 (position + 1) }, push_copy x position)
      else (q, push_look x q.enqueue_position)

  unfoldable pub pop_exchange : Bool → Cells A → ℕ → Cells A × Pc A
  pop_exchange spurious q position =
      if not spurious && q.dequeue_position == position
      then (record q { dequeue_position = u64 (position + 1) }, pop_copy position)
      else (q, pop_look q.dequeue_position)

  -- One access of one thread. A thread that is not in a call stays where it is.
  unfoldable pub move : Shape → Bool → Cells A → Pc A → Cells A × Pc A
  unfolding push_branch pop_branch push_exchange pop_exchange
  move g spurious q idle = (q, idle)
  move g spurious q (push_check x) = (q, if q.closed then push_done false else push_load x)
  move g spurious q (push_load x) = (q, push_look x q.enqueue_position)
  move g spurious q (push_look x position) =
      (q, push_branch x position (q.sequence_at (slot_sequence g position)))
  move g spurious q (push_claim x position) = push_exchange spurious q x position
  move g spurious q (push_copy x position) =
      (record q { item_at = update q.item_at (slot_data g position) x }, push_publish x position)
  move g spurious q (push_publish x position) = (
    record q { sequence_at = update q.sequence_at (slot_sequence g position) (u64 (position + 1)) },
    push_done true,
  )
  move g spurious q (push_done b) = (q, push_done b)
  move g spurious q pop_load = (q, pop_look q.dequeue_position)
  move g spurious q (pop_look position) =
      (q, pop_branch position (q.sequence_at (slot_sequence g position)))
  move g spurious q (pop_claim position) = pop_exchange spurious q position
  move g spurious q (pop_copy position) =
      (q, pop_release position (q.item_at (slot_data g position)))
  move g spurious q (pop_release position v) = (
    record q {
      sequence_at = update q.sequence_at (slot_sequence g position) (u64 (position + g.capacity));
    },
    pop_done (some v),
  )
  move g spurious q (pop_done r) = (q, pop_done r)
  move g spurious q close_store = (record q { closed = true }, close_done)
  move g spurious q close_done = (q, close_done)
