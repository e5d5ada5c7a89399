-- ===== src/Queue/Tests.antt =====
-- Concrete runs of the queue, and its theorems at concrete inputs.
use bc_concurrency.Base.{
  ℕ, ◌+◌, ◌*◌, ◌^◌, ◌≤◌, ◌≡◌, refl, true, false, Option, none, some, List, [], ◌∷◌, arith, length,
  get_elem?,
}
use bc_concurrency.Allocator.Bump.{BumpHeap, empty_heap, bump_allocator, bump_allocator-IsAllocator}
use bc_concurrency.Queue.{
  Shape, Queue, sequence_bytes, is_power_of_two, round_loop, round_up_power_of_two, align_up,
  effective_capacity, slot_sequence, slot_data, fresh_cells, shape_of, number_slots, create, build,
  destroy, is_closed, capacity,
}
use bc_concurrency.Queue.Sizing.{round_up-large}
use bc_concurrency.Queue.Layout.{IsShaped, slot_bounds}
use bc_concurrency.Queue.Steps.{pop_load, pop_release, move}
use bc_concurrency.Queue.Calls.{finish, serve, serve_all}
use bc_concurrency.Queue.Fifo.{Op, push, pop, close, pushed, popped, shut, run_fifo, Fires}
use bc_concurrency.Queue.System
use bc_concurrency.Queue.System.{System, Reach, start, later, call, access, advance}
use bc_concurrency.Queue.Contents.{contents, window}
use bc_concurrency.Queue.Safety.{event, access_refines, slot_owner_unique}
use bc_concurrency.Queue.History.{all_enqueued, all_won, put_in, won_by, fifo_order}
use bc_concurrency.Queue.Refine.{view, serve_all_refines}
use bc_concurrency.Queue.Creation.{IsNew, fresh-Settled, create-IsNew, create_memory}
use bc_concurrency.Queue.CapacityOne.{after_one, after_two, second_push_loses}

-- What `create` lays out for elements of 4 bytes and a capacity of 3.
abbrev four : Shape
four = record { capacity = 4; capacity_mask = 3; element_size = 4; slot_stride_bytes = 64 }

abbrev single : Shape
single = record { capacity = 1; capacity_mask = 0; element_size = 4; slot_stride_bytes = 64 }

sizes :
    (effective_capacity 64 3 ≡ some 4)
    × (effective_capacity 64 16 ≡ some 16)
    × (effective_capacity 64 1 ≡ some 1)
    × (round_up_power_of_two 64 (2 ^ 63 + 1) ≡ none)
    × (shape_of 4 4 ≡ four)
    × (shape_of 4 1 ≡ single)
unfolding effective_capacity is_power_of_two round_up_power_of_two round_loop shape_of align_up
sizes = (refl, refl, refl, refl, refl, refl)

four-IsShaped : IsShaped four
four-IsShaped = record {
  exponent = 2;
  power = refl;
  mask = refl;
  room = omega arith;
  fits = omega arith;
}

single-IsShaped : IsShaped single
single-IsShaped = record {
  exponent = 0;
  power = refl;
  mask = refl;
  room = omega arith;
  fits = omega arith;
}

abbrev script : List (Op ℕ)
script = push 7 ∷ push 8 ∷ pop ∷ close ∷ push 9 ∷ pop ∷ pop ∷ []

script_answers :
    serve_all four (fresh_cells 0 four) script
    ≡ some (
        pushed true
        ∷ pushed true
        ∷ popped (some 7)
        ∷ shut
        ∷ pushed false
        ∷ popped (some 8)
        ∷ popped none
        ∷ [])
unfolding serve_all serve finish move fresh_cells number_slots slot_sequence slot_data
script_answers = refl

-- Thread 0 pushes 7 to the end; thread 1 has won the position and read the element.
abbrev in_flight : (s : System ℕ) × Reach 0 four 12 s
unfolding move fresh_cells number_slots slot_sequence slot_data
in_flight =
    let pushed_7 =
      later
        (later
          (later
            (later
              (later (later (later start (call 0 (System.push 7) refl)) (access 0 false))
                (access 0 false))
              (access 0 false))
            (access 0 false))
          (access 0 false))
        (access 0 false) in
    (
      _,
      later
          (later
            (later (later (later pushed_7 (call 1 System.pop refl)) (access 1 false))
              (access 1 false))
            (access 1 false))
          (access 1 false),
    )

in_flight_lists :
    (all_enqueued in_flight.1 ≡ 7 ∷ [])
    × (all_won in_flight.1 ≡ 0 ∷ [])
    × (contents in_flight.0.cells in_flight.0.claimed ≡ [])
    × (in_flight.0.pc 1 ≡ pop_release 0 7)
unfolding all_enqueued all_won contents window move fresh_cells number_slots slot_sequence slot_data
    put_in won_by
in_flight_lists = (refl, refl, refl, refl)

fifo_order_example :
    (get_elem? (all_enqueued in_flight.1) 0 ≡ some 7)
    × (get_elem? (all_won in_flight.1) 0 ≡ some 0)
    × (length (all_enqueued in_flight.1) ≡ in_flight.0.cells.enqueue_position)
    × (length (all_won in_flight.1) ≡ in_flight.0.cells.dequeue_position)
unfolding move fresh_cells number_slots slot_sequence slot_data
fifo_order_example = fifo_order four-IsShaped (omega arith) (omega arith) in_flight.1 1 0 7 refl

access_refines_example :
    Fires 4
      (contents in_flight.0.cells in_flight.0.claimed)
      (event in_flight.0.claimed (move four false in_flight.0.cells (in_flight.0.pc 1)).1)
      (contents (advance four false 1 in_flight.0).cells (advance four false 1 in_flight.0).claimed)
access_refines_example =
    access_refines four-IsShaped (omega arith) (omega arith) in_flight.1 1 false

-- The thread that pops.
abbrev popper : ℕ
popper = 1

slot_owner_unique_example : popper ≡ popper
unfolding move fresh_cells number_slots slot_sequence slot_data
slot_owner_unique_example =
    slot_owner_unique four-IsShaped (omega arith) (omega arith) in_flight.1 popper popper 0 0 refl
      refl refl

serve_all_refines_example :
    serve_all four (fresh_cells 0 four) script
    ≡ some (run_fifo 4 (view (fresh_cells 0 four) (λ _. 0)) script)
serve_all_refines_example =
    serve_all_refines four-IsShaped (omega arith) script (omega arith)
      (fresh-Settled 0 four-IsShaped)

abbrev cleared : ℕ
cleared = 0

abbrev seven : ℕ
seven = 7

abbrev eight : ℕ
eight = 8

second_push_loses_example :
    (serve single (fresh_cells cleared single) (push seven)
      ≡ some (after_one single cleared seven, pushed true))
    × (serve single (after_one single cleared seven) (push eight)
        ≡ some (after_two single cleared seven eight, pushed true))
    × ((after_two single cleared seven eight).item_at (slot_data single 0) ≡ eight)
    × ((fuel : ℕ) → finish fuel single (after_two single cleared seven eight) pop_load ≡ none)
second_push_loses_example = second_push_loses single-IsShaped refl cleared seven eight

slot_bounds_example :
    (slot_sequence four 6 + sequence_bytes ≤ slot_data four 6)
    × (slot_data four 6 + 4 ≤ slot_sequence four 6 + 64)
    × (slot_sequence four 6 + 64 ≤ 64 * 4)
slot_bounds_example = slot_bounds four-IsShaped 6

round_up-large_example : round_up_power_of_two 100 (2 ^ 63 + 1) ≡ none
round_up-large_example = round_up-large 100 (2 ^ 63 + 1) (omega arith)

-- What `create` answers for elements of 4 bytes and a capacity of 3.
abbrev made : Option (BumpHeap × Option (Queue ℕ))
made = create bump_allocator 64 0 empty_heap 4 3

abbrev new_queue : Queue ℕ
new_queue = record { address = 4096; slot_buffer = 4097; shape = four; cells = fresh_cells 0 four }

create-IsNew_example : IsNew cleared 3 four (fresh_cells cleared four)
unfolding create build effective_capacity is_power_of_two round_up_power_of_two round_loop shape_of
    align_up
create-IsNew_example =
    create-IsNew bump_allocator cleared 64 empty_heap 4 3 {q = new_queue} (omega arith)
      (omega arith) refl

create_memory_example :
    bump_allocator.live
      (destroy bump_allocator
        (bump_allocator.allocate (bump_allocator.allocate empty_heap 192).0 256).0
        new_queue)
      4097
    ≡ false
unfolding create build effective_capacity is_power_of_two round_up_power_of_two round_loop shape_of
    align_up destroy
create_memory_example =
    create_memory bump_allocator 0 bump_allocator-IsAllocator 64 empty_heap 4 3 4097
      {r = (
        (bump_allocator.allocate (bump_allocator.allocate empty_heap 192).0 256).0,
        some new_queue,
      )}
      refl

closed_and_capacity : (is_closed new_queue ≡ false) × (capacity new_queue ≡ 4)
unfolding is_closed capacity fresh_cells
closed_and_capacity = (refl, refl)
