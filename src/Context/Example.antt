-- ===== src/Context/Example.antt =====
-- A new context with two workers, over the allocator for concrete runs.
use bc_concurrency.Base.{◌*◌, ◌≡◌, refl, true, false, some, [], ltb}
use bc_concurrency.Allocator.{IsAllocator}
use bc_concurrency.Allocator.Bump.{
  empty_heap, take_block, give_block, bump_allocator, bump_allocator-IsAllocator,
}
use bc_concurrency.Context.{
  Sizes, Context, Services, Machine, blank_context, create, got_context, got_staging,
  got_dispatch_tasks, got_dispatch_work, got_threads, got_workers, after_init, init_workers,
}
use bc_concurrency.Context.Placement.{Plan}
use bc_concurrency.Context.Creation.{vectors}

-- A vector's storage is a block of 16 bytes an element.
abbrev pub services : Services bump_allocator
services = record {
  reserve = λ h n. take_block h (n * 16);
  release = give_block;
  memory_create = λ i. ltb i 2;
}

pub vectors-IsAllocator : IsAllocator (vectors bump_allocator services)
vectors-IsAllocator = record {
  allocate_fresh = λ h n p. bump_allocator-IsAllocator.allocate_fresh h (n * 16) p;
  allocate_live = λ h n p q. bump_allocator-IsAllocator.allocate_live h (n * 16) p q;
  allocate_none = λ h n q. bump_allocator-IsAllocator.allocate_none h (n * 16) q;
  free_live = λ h p q. refl;
}

abbrev pub sizes : Sizes
sizes = record { context_size = 192; work_size = 16; thread_size = 8; worker_size = 256 }

abbrev pub start : Machine bump_allocator
start = record {
  heap = empty_heap;
  memories = λ _. false;
  locks = λ _. false;
  initialised = [];
  destroyed = [];
}

-- Two workers, whose memory contexts can be created.
abbrev pub two_plan : Plan
two_plan = record { thread_count = 2; core_offset = 1; worker_stack_size = 16384 }

abbrev pub able : Services bump_allocator
able = record services { memory_create = λ i. true }

abbrev pub made : Context
made = record (blank_context two_plan 4096) {
  staging = 4097;
  dispatch_tasks = 4098;
  dispatch_capacity = 1024;
  dispatch_work = 4099;
  threads = some 4100;
  workers = 4101;
}

pub create_made : (create bump_allocator able sizes two_plan start).1 ≡ some made
unfolding create got_context got_staging got_dispatch_tasks got_dispatch_work got_threads
    got_workers after_init init_workers
create_made = refl
