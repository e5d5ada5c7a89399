-- ===== src/Queue.antt =====
-- src/queue/bc_concurrency_queue.c: the bounded multi-producer multi-consumer queue. This file has
-- its sizes, its memory layout, `create`, `destroy` and the queries; `Queue.Steps` has the atomic
-- accesses of `push`, `pop` and `close`.
pub mod Sizing
pub mod Layout
pub mod Creation
pub mod Steps
pub mod Calls
pub mod Fifo
pub mod Contents
pub mod System
pub mod Invariant
pub mod Safety
pub mod History
pub mod Refine
pub mod CapacityOne
mod Tests
use bc_concurrency.Base.{
  ℕ, zero, suc, ◌+◌, ◌-◌, ◌*◌, ◌^◌, bit_and, Bool, true, false, ◌&&◌, ◌||◌, not, Option, none, some,
  leb, ltb, ◌==◌, if◌then◌else◌, update,
}
use bc_concurrency.Base.Words.{u64, sub64}
use bc_concurrency.Allocator.{Allocator}

-- BC_CONCURRENCY_QUEUE_CACHELINE_BYTES
abbrev pub cacheline_bytes : ℕ
cacheline_bytes = 64

-- sizeof(_Atomic uint64_t)
abbrev pub sequence_bytes : ℕ
sequence_bytes = 8

-- sizeof(bc_concurrency_queue_t): three cache lines.
abbrev pub queue_bytes : ℕ
queue_bytes = 192

pub is_power_of_two : ℕ → Bool
is_power_of_two value = not (value == 0) && bit_and value (sub64 value 1) == 0

-- The loop of `round_up_power_of_two`, on fuel: `none` when the fuel is used up.
pub round_loop : ℕ → ℕ → ℕ → Option ℕ
round_loop zero power value = none
round_loop (suc fuel) power value =
    let rest = round_loop fuel (u64 (power * 2)) value in
    if ltb power value then rest else some power

pub round_up_power_of_two : ℕ → ℕ → Option ℕ
round_up_power_of_two fuel value = if leb value 1 then some 1 else round_loop fuel 1 value

pub align_up : ℕ → ℕ → ℕ
align_up value alignment =
    bit_and (sub64 (u64 (value + alignment)) 1) (2 ^ 64 - 1 - sub64 alignment 1)

-- The fields of `bc_concurrency_queue_t` that nothing writes after `create`.
pub record Shape : Type 0 where
  pub capacity : ℕ
  pub capacity_mask : ℕ
  pub element_size : ℕ
  pub slot_stride_bytes : ℕ

-- What the threads share: the three atomic fields, and the slots by their byte offset in
-- `slot_buffer` (the sequence number at the offset of a slot, the element behind it).
pub record Cells (A : Type 0) : Type 0 where
  pub enqueue_position : ℕ
  pub dequeue_position : ℕ
  pub closed : Bool
  pub sequence_at : ℕ → ℕ
  pub item_at : ℕ → A

pub record Queue (A : Type 0) : Type 0 where
  pub address : ℕ
  pub slot_buffer : ℕ
  pub shape : Shape
  pub cells : Cells A

-- The offsets in `slot_buffer` of a position's sequence number and of its element.
pub slot_sequence : Shape → ℕ → ℕ
slot_sequence g position = u64 (bit_and position g.capacity_mask * g.slot_stride_bytes)

pub slot_data : Shape → ℕ → ℕ
slot_data g position = slot_sequence g position + sequence_bytes

-- `for (slot_index = i; slot_index < i + n; ++slot_index)`: a slot's sequence number is its index.
pub number_slots : Shape → ℕ → ℕ → (ℕ → ℕ) → ℕ → ℕ
number_slots g zero i sequence_at = sequence_at
number_slots g (suc n) i sequence_at =
    number_slots g n (i + 1) (update sequence_at (slot_sequence g i) i)

pub shape_of : ℕ → ℕ → Shape
shape_of element_size effective_capacity = record {
  capacity = effective_capacity;
  capacity_mask = sub64 effective_capacity 1;
  element_size = element_size;
  slot_stride_bytes = align_up (u64 (sequence_bytes + element_size)) cacheline_bytes;
}

-- The cells of a new queue, over a buffer that `bc_core_zero` has cleared: `blank` is the element
-- whose bytes are all zero.
pub fresh_cells : {A : Type 0} → A → Shape → Cells A
fresh_cells blank g = record {
  enqueue_position = 0;
  dequeue_position = 0;
  closed = false;
  sequence_at = number_slots g g.capacity 0 (λ _. 0);
  item_at = λ _. blank;
}

-- `is_power_of_two(capacity) ? capacity : round_up_power_of_two(capacity)`
pub effective_capacity : ℕ → ℕ → Option ℕ
effective_capacity fuel capacity =
    if is_power_of_two capacity then some capacity else round_up_power_of_two fuel capacity

module _ (a : Allocator) where
  -- From the first allocation on; `none` where `create` returns false.
  pub build : {A : Type 0} → A → a.Heap → ℕ → ℕ → a.Heap × Option (Queue A)
  build blank h element_size capacity =
      let g = shape_of element_size capacity in
      let (h₁, outer) = a.allocate h queue_bytes in
      elim outer [
        | none ↦ (h₁, none)
        | some address ↦
            let (h₂, inner) = a.allocate h₁ (u64 (g.slot_stride_bytes * capacity)) in
            elim inner [
              | none ↦ (a.free h₂ address, none)
              | some slot_buffer ↦ (
                h₂,
                some (record {
                  address = address;
                  slot_buffer = slot_buffer;
                  shape = g;
                  cells = fresh_cells blank g;
                }),
              )
            ]
      ]

  -- bc_concurrency_queue_create; the outer `none` means that the rounding loop used up its fuel.
  pub create : {A : Type 0} → ℕ → A → a.Heap → ℕ → ℕ → Option (a.Heap × Option (Queue A))
  create fuel blank h element_size capacity =
      if element_size == 0 || capacity == 0
      then some (h, none)
      else elim (effective_capacity fuel capacity) [
        | none ↦ none
        | some c ↦ some (build blank h element_size c)
      ]

  -- bc_concurrency_queue_destroy
  unfoldable pub destroy : {A : Type 0} → a.Heap → Queue A → a.Heap
  destroy h q = a.free (a.free h q.slot_buffer) q.address

-- bc_concurrency_queue_is_closed and bc_concurrency_queue_capacity
pub is_closed : {A : Type 0} → Queue A → Bool
is_closed q = q.cells.closed

pub capacity : {A : Type 0} → Queue A → ℕ
capacity q = q.shape.capacity
