-- ===== src/Dispatch/Memory.antt =====
-- The dispatch array that bc_concurrency_dispatch_and_wait copies the staged tasks to.
use native.Mathlib.Decide.{dec_lt}
use bc_concurrency.Base.{
  ℕ, zero, suc, ◌*◌, ◌^◌, ◌≤◌, ◌<◌, ◌≡◌, ◌≢◌, ◌∙◌, ◌⊎◌, inl, inr, Option-cases, ap, Bool,
  Bool-cases, ◌||◌, true, false, none, some, length, arith, update, ltb, ◌==◌, if◌then◌else◌,
}
use bc_concurrency.Base.Words.{u64}
use bc_concurrency.Allocator.{Allocator, IsAllocator}
use bc_concurrency.ParallelFor.{entry_bytes}
use bc_concurrency.Dispatch.{Stage, Round, refused, grow, share_out, distribute, dispatch_and_wait}

grow_enough :
    (fuel start count c : ℕ) → ¬ (start < count) → grow fuel start count ≡ some c → start ≡ c
unfolding grow
grow_enough zero start count c enough e = ground arith
grow_enough (suc fuel) start count c enough e = ground arith

-- The doubled capacity holds the tasks, and is less than twice as much.
grow_room :
    (fuel start count c : ℕ)
    → 0 < start
    → start < count
    → count ≤ 2 ^ 63
    → grow fuel start count ≡ some c
    → (count ≤ c) × (c < 2 * count)
unfolding grow
grow_room zero start count c pos less small e = ground arith
grow_room (suc fuel) start count c pos less small e =
    let whole : u64 (start * 2) ≡ start * 2 = omega arith in
    let next : grow fuel (start * 2) count ≡ some c =
      ground (arith, whole, ap (λ k. grow fuel k count) whole) in
    elim (dec_lt (start * 2) count) [
      | yes more ↦ grow_room fuel (start * 2) count c (omega arith) more small next
      | no enough ↦
          let same = grow_enough fuel (start * 2) count c enough next in omega (arith, same)
    ]

module _ {A : Type 0} (a : Allocator) (laws : IsAllocator a) where
  -- What a dispatch does to the heap and the dispatch array.
  abbrev Shape : a.Heap → ℕ → Stage A → a.Heap → Stage A → Round A → Type 0
  Shape h n s h' s' r =
      ((s'.dispatch_tasks ≡ s.dispatch_tasks)
        × (s'.dispatch_capacity ≡ s.dispatch_capacity)
        × (((h' ≡ h)
              × ((length s.staging ≤ s.dispatch_capacity)
                  ⊎ ((n ≡ 0) ⊎ ((length s.staging ≤ 1) ⊎ (r ≡ refused)))))
            ⊎ ((size : ℕ) × ((a.allocate h size).1 ≡ none)
                × (h' ≡ (a.allocate h size).0)
                × (r ≡ refused))))
      ⊎ ((r ≢ refused)
          × ((a.allocate h (s'.dispatch_capacity * 16)).1 ≡ some s'.dispatch_tasks)
          × (length s.staging ≤ s'.dispatch_capacity)
          × (s'.dispatch_capacity < 2 * length s.staging)
          × (h' ≡ a.free (a.allocate h (s'.dispatch_capacity * 16)).0 s.dispatch_tasks))

  grown-Shape :
      (fuel : ℕ) (h : a.Heap) (n : ℕ) (s : Stage A) (c : ℕ) {h' : a.Heap} {s' : Stage A}
      {r : Round A}
      → length s.staging ≤ 2 ^ 59
      → 0 < s.dispatch_capacity
      → s.dispatch_capacity < length s.staging
      → grow fuel s.dispatch_capacity (length s.staging) ≡ some c
      → distribute a fuel h n s ≡ some (h', s', r)
      → Shape h n s h' s' r
  unfolding distribute share_out
  grown-Shape fuel h n s c {h'} {s'} {r} few pos less g e =
      let (room, tight) =
        grow_room fuel s.dispatch_capacity (length s.staging) c pos less (omega arith) g in
      let size : u64 (c * entry_bytes) ≡ c * 16 = omega (arith, tight) in
      elim (Option-cases (a.allocate h (u64 (c * entry_bytes))).1) [
        | inl failed ↦ inl (
          ground arith,
          ground arith,
          inr (u64 (c * entry_bytes), failed, ground arith, ground arith),
        )
        | inr (p, got) ↦ inr (ground (arith, size))
      ]

  dispatch-Shape :
      (fuel : ℕ) (spawned : Bool) (h : a.Heap) (n : ℕ) (s : Stage A) {h' : a.Heap} {s' : Stage A}
      {r : Round A}
      → length s.staging ≤ 2 ^ 59
      → 0 < s.dispatch_capacity
      → dispatch_and_wait a fuel spawned h n s ≡ some (h', s', r)
      → Shape h n s h' s' r
  unfolding dispatch_and_wait distribute share_out
  dispatch-Shape fuel spawned h n s {h'} {s'} {r} few pos e =
      elim (Bool-cases (ltb s.dispatch_capacity (length s.staging))) [
        | inr room ↦ inl (ground arith, ground arith, inl (ground arith, ground arith))
        | inl less ↦
            elim (Bool-cases
              (n == 0 || ltb (length s.staging) 2 || (if spawned then false else true))) [
                | inl idle ↦ inl (ground arith, ground arith, inl (ground arith, ground arith))
                | inr busy ↦
                    elim (Option-cases (grow fuel s.dispatch_capacity (length s.staging))) [
                      | inl stuck ↦ absurd (ground arith)
                      | inr (c, g) ↦
                          grown-Shape fuel h n s c {h' = h'} {s' = s'} {r = r} few pos
                            (ground arith) g (ground arith)
                    ]
              ]
      ]

  -- For at most 2 ^ 59 staged tasks and a dispatch capacity above 0, a dispatch that returns does one of
  -- two things. It leaves the heap's blocks and the dispatch array; then the array has room for the
  -- staged tasks, or it was not used, as no worker or at most one task was there, or the dispatch
  -- returned false. Or it has run the tasks, has a new array, a block of 16 bytes for each task
  -- of the new capacity, which is less than twice the number of staged tasks and not less than
  -- it, and of the other blocks only the old array is gone.
  pub dispatch_array :
      (fuel : ℕ) (spawned : Bool) (h : a.Heap) (n : ℕ) (s : Stage A) {h' : a.Heap} {s' : Stage A}
      {r : Round A}
      → length s.staging ≤ 2 ^ 59
      → 0 < s.dispatch_capacity
      → dispatch_and_wait a fuel spawned h n s ≡ some (h', s', r)
      → (((q : ℕ) → a.live h' q ≡ a.live h q)
          × (s'.dispatch_tasks ≡ s.dispatch_tasks)
          × (s'.dispatch_capacity ≡ s.dispatch_capacity)
          × ((length s.staging ≤ s.dispatch_capacity)
              ⊎ ((n ≡ 0) ⊎ ((length s.staging ≤ 1) ⊎ (r ≡ refused)))))
        ⊎ ((r ≢ refused)
            × ((a.allocate h (s'.dispatch_capacity * 16)).1 ≡ some s'.dispatch_tasks)
            × (length s.staging ≤ s'.dispatch_capacity)
            × (s'.dispatch_capacity < 2 * length s.staging)
            × ((q : ℕ)
                → a.live h' q
                  ≡ update (update (a.live h) s'.dispatch_tasks true) s.dispatch_tasks false q))
  dispatch_array fuel spawned h n s {h'} {s'} {r} few pos e =
      elim (dispatch-Shape fuel spawned h n s few pos e) [
        | inl (tasks, capacity, inl (same, used)) ↦
            inl (λ q. ap (λ k. a.live k q) same, tasks, capacity, used)
        | inl (tasks, capacity, inr (size, failed, after, ended)) ↦ inl (
          λ q. ap (λ k. a.live k q) after ∙ laws.allocate_none h size q failed,
          tasks,
          capacity,
          inr (inr (inr ended)),
        )
        | inr (done, got, room, tight, after) ↦ inr (
          done,
          got,
          room,
          tight,
          λ q.
              let block = (a.allocate h (s'.dispatch_capacity * 16)).0 in
              ap (λ k. a.live k q) after
              ∙ laws.free_live block s.dispatch_tasks q
              ∙ ground
                  (arith, laws.allocate_live h (s'.dispatch_capacity * 16) s'.dispatch_tasks q got),
        )
      ]
