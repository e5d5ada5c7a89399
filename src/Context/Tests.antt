-- ===== src/Context/Tests.antt =====
-- A context on eight cores, and one whose third memory context cannot be created.
use bc_concurrency.Base.{
  ℕ, ◌+◌, ◌-◌, ◌^◌, ◌*◌, ◌&&◌, ◌<◌, ◌≤◌, ◌≡◌, ◌≢◌, ◌⊎◌, inl, refl, true, false, Option, none, some,
  List, [], ◌∷◌, length, get_elem?, arith, leb, ◌==◌, if◌then◌else◌,
}
use bc_concurrency.Allocator.Bump.{empty_heap, bump_allocator, bump_allocator-IsAllocator}
use bc_concurrency.Context.{
  Context, blank_context, create, destroy, got_context, got_staging, got_dispatch_tasks,
  got_dispatch_work, got_threads, got_workers, after_init, init_workers,
}
use bc_concurrency.Context.Client.{register_all, prepared, lifetime, callbacks_match, private_slots}
use bc_concurrency.Context.Callbacks.{times}
use bc_concurrency.Context.Queries.{
  worker_memory, worker_slot, worker_index, thread_count, effective_worker_count, foreach_slot,
  calls, foreach-worker_slot,
}
use bc_concurrency.Context.Slots.{
  SlotConfig, register_slot, with_configs, grow_configs, got_configs, slot_loop, slot_round,
  got_slots, got_data, after_slots, release_some, copied, set_slot,
}
use bc_concurrency.Context.Slots.Shape.{Registered, register_cases}
use bc_concurrency.Context.Pointers.{IsSlotted}
use bc_concurrency.Context.Placement.{
  Config, Plan, plan_of, config_of, stack_size, thread_count_of, worker_core, plan_cores,
}
use bc_concurrency.Context.Example.{
  services, vectors-IsAllocator, sizes, start, two_plan, able, made, create_made,
}
use bc_concurrency.Context.Lifetime.{create_cases}

abbrev three_workers : Option Config
three_workers = some (record {
  core_offset = 2;
  worker_count_explicit = true;
  worker_count = 3;
  worker_stack_size = 0;
})

abbrev three_plan : Plan
three_plan = record { thread_count = 3; core_offset = 2; worker_stack_size = 1024 * 1024 }

accepted : plan_of 16384 8 three_workers ≡ some three_plan
unfolding plan_of config_of stack_size thread_count_of
accepted = refl

plan_cores_example :
    (worker_core three_plan 0 < 8)
    × (worker_core three_plan 0 ≢ 2)
    × ((◌≡◌ {A = ℕ} 0 2) ⊎ (worker_core three_plan 0 ≢ worker_core three_plan 2))
    × (16384 ≤ three_plan.worker_stack_size)
    × (2 < 8)
plan_cores_example =
    plan_cores 16384 8 three_workers three_plan 0 2 accepted (omega arith) (omega arith)
      (omega arith) (omega arith)

create_cases_example :
    (((create bump_allocator services sizes three_plan start).1 ≡ none)
      × (bump_allocator.live (create bump_allocator services sizes three_plan start).0.heap
          ≡ bump_allocator.live empty_heap)
      × ((i : ℕ) → (create bump_allocator services sizes three_plan start).0.memories i ≡ false))
    ⊎ ((c : Context) × ((create bump_allocator services sizes three_plan start).1 ≡ some c)
        × (bump_allocator.live
              (destroy bump_allocator services sizes c
                (create bump_allocator services sizes three_plan start).0).heap
            ≡ bump_allocator.live empty_heap)
        × ((i : ℕ)
            → ((create bump_allocator services sizes three_plan start).0.memories i ≡ leb i 3)
              × ((create bump_allocator services sizes three_plan start).0.locks i ≡ leb i 3)
              × ((destroy bump_allocator services sizes c
                      (create bump_allocator services sizes three_plan start).0).memories
                    i
                  ≡ false)
              × ((destroy bump_allocator services sizes c
                      (create bump_allocator services sizes three_plan start).0).locks
                    i
                  ≡ false)))
create_cases_example =
    create_cases bump_allocator services sizes bump_allocator-IsAllocator vectors-IsAllocator
      (bump_allocator.live empty_heap) three_plan start (λ i. (refl, refl)) refl (omega arith)

-- A context whose three workers and main thread have one slot each.
abbrev slotted : Context
slotted = record (blank_context three_plan 50) {
  slot_count = 1;
  slot_capacity = 4;
  slot_configs = some 60;
  slots = λ i. if leb i 3 then some (70 + i) else none;
  slot = λ i s. if s == 0 && leb i 3 then some (80 + i) else none;
}

abbrev counter : SlotConfig
counter = record { size = 64; has_init = true; has_destroy = true }

slotted-IsSlotted : IsSlotted 3 slotted
slotted-IsSlotted = record {
  threads = refl;
  arrays = λ j le pos e. ground arith;
  there = λ j s le lt e. ground arith;
  behind = λ j s le. ground arith;
  above = λ j s lt. ground arith;
}

register_cases_example :
    Registered bump_allocator 32 2 0 slotted (register_slot bump_allocator 32 counter slotted start)
register_cases_example =
    register_cases bump_allocator 32 counter slotted start 3 2 0 (omega arith) slotted-IsSlotted
      (omega arith) (omega arith)

abbrev two_slots : List SlotConfig
two_slots = counter ∷ counter ∷ []

all_registered : (prepared bump_allocator able sizes 32 two_plan start two_slots made).2 ≡ true
unfolding create got_context got_staging got_dispatch_tasks got_dispatch_work got_threads
    got_workers after_init init_workers register_all register_slot with_configs grow_configs
    got_configs slot_loop slot_round got_slots got_data after_slots release_some copied set_slot
all_registered = refl

two_there : (prepared bump_allocator able sizes 32 two_plan start two_slots made).1.slot_count ≡ 2
unfolding create got_context got_staging got_dispatch_tasks got_dispatch_work got_threads
    got_workers after_init init_workers register_all register_slot with_configs grow_configs
    got_configs slot_loop slot_round got_slots got_data after_slots release_some copied set_slot
two_there = refl

callbacks_match_example :
    (times 1 2 (prepared bump_allocator able sizes 32 two_plan start two_slots made).0.initialised
      ≡ times 1 2 (create bump_allocator able sizes two_plan start).0.initialised + 1)
    × (times 1 2 (lifetime bump_allocator able sizes 32 two_plan start two_slots made).destroyed
        ≡ times 1 2 (create bump_allocator able sizes two_plan start).0.destroyed + 1)
callbacks_match_example =
    callbacks_match bump_allocator able sizes 32 bump_allocator-IsAllocator vectors-IsAllocator
      two_plan start two_slots made 1 2 (λ i. (refl, refl)) (omega arith) create_made refl
      all_registered

private_slots_example :
    (p : ℕ) × (q : ℕ) × (worker_slot
        (prepared bump_allocator able sizes 32 two_plan start two_slots made).1
        (some 0)
        1
      ≡ some p)
    × (worker_slot
          (prepared bump_allocator able sizes 32 two_plan start two_slots made).1
          (some 2)
          1
        ≡ some q)
    × (p ≢ q)
    × (bump_allocator.live
          (prepared bump_allocator able sizes 32 two_plan start two_slots made).0.heap
          p
        ≡ true)
    × (bump_allocator.live
          (prepared bump_allocator able sizes 32 two_plan start two_slots made).0.heap
          q
        ≡ true)
    × (bump_allocator.live empty_heap p ≡ false)
    × (bump_allocator.live empty_heap q ≡ false)
private_slots_example =
    private_slots bump_allocator able sizes 32 bump_allocator-IsAllocator vectors-IsAllocator
      two_plan start two_slots made 0 1 2 1 (λ i. (refl, refl)) (omega arith) create_made
      (omega arith) (omega arith) (omega (arith, two_there)) (omega (arith, two_there))
      (inl (omega arith))

foreach-worker_slot_example :
    (length (calls (foreach_slot slotted 0)) ≡ effective_worker_count slotted)
    × (get_elem? (calls (foreach_slot slotted 0)) 2
        ≡ some (worker_slot slotted (some 2) 0, worker_index (some 2)))
unfolding thread_count
foreach-worker_slot_example =
    foreach-worker_slot slotted 0 2 (omega arith) (omega arith) (ground arith)

-- The queries of a thread that runs no task, and of one that runs worker 1's.
queries :
    (worker_memory none ≡ none)
    × (worker_index none ≡ 2 ^ 64 - 1)
    × (worker_slot slotted none 0 ≡ none)
    × (worker_memory (some 1) ≡ some 1)
    × (worker_slot slotted (some 1) 0 ≡ some 81)
    × (worker_slot slotted (some 1) 1 ≡ none)
    × (calls (foreach_slot slotted 1) ≡ [])
unfolding worker_memory worker_index worker_slot foreach_slot calls
queries = (refl, refl, refl, refl, refl, refl, refl)
