-- ===== src/Session/Soundness.antt =====
-- What holds between the calls of a session, and that each kind of call keeps it.
use bc_concurrency.Base.{
  ℕ, ◌+◌, ◌*◌, ◌^◌, ◌<◌, ◌≤◌, ◌≡◌, inl, inr, refl, ap, ◌∙◌, Bool, some, List, ◌++◌, length, arith,
  leb,
}
use bc_concurrency.Allocator.{Allocator, IsAllocator}
use bc_concurrency.Context.{Context}
use bc_concurrency.Context.Ownership.{Key, field, array, slot, scratch, put, Owned, Owned-ext}
use bc_concurrency.Context.Pointers.{pointers, IsSlotted}
use bc_concurrency.Context.Slots.{SlotConfig, register_slot}
use bc_concurrency.Context.Slots.Shape.{register_slot-IsSlotted}
use bc_concurrency.Context.Slots.Memory.{register_slot-Owned}
use bc_concurrency.Context.Slots.Inits.{register_slot-inits}
use bc_concurrency.Context.Slots.Capacity.{register_slot-capacity}
use bc_concurrency.Dispatch.{Stage, Round, dispatch_and_wait}
use bc_concurrency.Dispatch.Exact.{tasks_run, dispatch_exact}
use bc_concurrency.Dispatch.Memory.{dispatch_array}
use bc_concurrency.Dispatch.Submission.{Entry}
use bc_concurrency.Session.{Staging, IsStaging, Session, with_array, stage_of}
use bc_concurrency.Session.Memory.{Owned-stays, Owned-replaced, stored_at}

-- The slots are those of another context with the same slots.
IsSlotted-same :
    {n : ℕ} (c : Context) (storage tasks room : ℕ)
    → IsSlotted n c
    → IsSlotted n (record c { staging = storage; dispatch_tasks = tasks; dispatch_capacity = room })
IsSlotted-same c storage tasks room v = record {
  threads = v.threads;
  arrays = v.arrays;
  there = v.there;
  behind = v.behind;
  above = v.above;
}

module _ (a : Allocator) (g : Staging a) (laws : IsAllocator a) (staging_laws : IsStaging a g)
    {F X : Type 0} (before : ℕ → Bool) (n : ℕ) (small : n + 1 < 2 ^ 64) where
  -- What holds between the calls of a session on a context with `n` workers, where `room` tasks are yet to
  -- be submitted.
  pub record Sound (room : ℕ) (s : Session a F X) : Type 0 where
    pub blocks : Owned before (a.live s.machine.heap) (pointers s.context)
    pub shape : IsSlotted n s.context
    pub capacity : 0 < s.context.dispatch_capacity
    pub few : length s.staged + room ≤ 2 ^ 59
    pub states : (i : ℕ) → (s.machine.memories i ≡ leb i n) × (s.machine.locks i ≡ leb i n)

  pub register-Sound :
      (size room : ℕ) (config : SlotConfig) (s : Session a F X)
      → Sound room s
      → Sound room (record s {
        machine = (register_slot a size config s.context s.machine).0;
        context = (register_slot a size config s.context s.machine).1;
      })
  register-Sound size room config s v =
      let quiet =
        (register_slot-inits a size config n s.context s.machine 0 0 small v.shape.threads).0 in
      record {
        blocks =
            register_slot-Owned a size laws before n config s.context s.machine small v.shape
              v.blocks;
        shape = register_slot-IsSlotted a size n config s.context s.machine small v.shape;
        capacity =
            ground (arith, v.capacity, register_slot-capacity a size config s.context s.machine);
        few = v.few;
        states =
            λ i. (ap (λ f. f i) quiet.0 ∙ (v.states i).0, ap (λ f. f i) quiet.1 ∙ (v.states i).1);
      }

  pub stored-Sound :
      (room room' : ℕ) (s : Session a F X) (r : a.Heap × ℕ × List (Entry F X))
      → Sound room s
      → Owned before (a.live r.0) (stored_at a g staging_laws before s.context r.1)
      → length r.2 + room' ≤ length s.staged + room
      → Sound room' (with_array a g s r)
  stored-Sound room room' s r v blocks less = record {
    blocks = blocks;
    shape =
        IsSlotted-same s.context r.1 s.context.dispatch_tasks s.context.dispatch_capacity v.shape;
    capacity = v.capacity;
    few = omega (arith, v.few);
    states = v.states;
  }

  pub loop-Sound :
      (room : ℕ) (s : Session a F X) (h : a.Heap)
      → Sound room s
      → ((q : ℕ) → a.live h q ≡ a.live s.machine.heap q)
      → Sound room (record s { machine = record s.machine { heap = h } })
  loop-Sound room s h v e = record {
    blocks = Owned-stays v.blocks e;
    shape = v.shape;
    capacity = v.capacity;
    few = v.few;
    states = v.states;
  }

  pub dispatched-Sound :
      (fuel room : ℕ) (spawned : Bool) (s : Session a F X) {h' : a.Heap} {t : Stage (Entry F X)}
      {r : Round (Entry F X)}
      → Sound room s
      → dispatch_and_wait a fuel spawned s.machine.heap s.context.thread_count (stage_of a g s)
        ≡ some (h', t, r)
      → Sound room (record s {
        machine = record s.machine { heap = h' };
        context = record s.context {
          dispatch_tasks = t.dispatch_tasks;
          dispatch_capacity = t.dispatch_capacity;
        };
        staged = t.staging;
        completed = s.completed ++ tasks_run r;
      })
  dispatched-Sound fuel room spawned s {h'} {t} {r} v e =
      let c = s.context in
      let array =
        dispatch_array a laws fuel spawned s.machine.heap c.thread_count (stage_of a g s)
          (omega (arith, v.few)) v.capacity e in
      let tasks =
        dispatch_exact a fuel spawned s.machine.heap c.thread_count (stage_of a g s)
          (omega (arith, v.few)) (omega (arith, small, v.shape.threads)) e in
      record {
        blocks = elim array [
          | inl (stays, same, capacity, used) ↦
              Owned-ext (pointers (moved_array t)) (Owned-stays v.blocks stays)
                (λ k. unmoved same k)
          | inr (done, got, large, tight, after) ↦
              Owned-ext (pointers (moved_array t))
                (Owned-replaced (field 2) c.dispatch_tasks t.dispatch_tasks v.blocks refl refl
                  (laws.allocate_fresh s.machine.heap (t.dispatch_capacity * 16) t.dispatch_tasks
                    got)
                  after)
                (λ k. moved k)
        ];
        shape = IsSlotted-same c c.staging t.dispatch_tasks t.dispatch_capacity v.shape;
        capacity = ground (arith, v.capacity, array);
        few = elim tasks [
          | inl (done, run, empty) ↦ omega (arith, v.few, ap length empty)
          | inr (ended, same) ↦ omega (arith, v.few, ap (λ u. length u.staging) same)
        ];
        states = v.states;
      }
    where
      moved_array : Stage (Entry F X) → Context
      moved_array t = record s.context {
        dispatch_tasks = t.dispatch_tasks;
        dispatch_capacity = t.dispatch_capacity;
      }

      unmoved :
          t.dispatch_tasks ≡ s.context.dispatch_tasks
          → (k : Key) → pointers s.context k ≡ pointers (moved_array t) k
      unmoved same (field k) = ground arith
      unmoved same (array i) = refl
      unmoved same (slot i j) = refl
      unmoved same scratch = refl

      moved :
          (k : Key)
          → put (pointers s.context) (field 2) (some t.dispatch_tasks) k
            ≡ pointers (moved_array t) k
      moved (field k) = ground arith
      moved (array i) = refl
      moved (slot i j) = refl
      moved scratch = refl
