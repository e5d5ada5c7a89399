-- ===== src/Context/Queries.antt =====
-- src/context/bc_concurrency.c: what a task sees of the worker that runs it, and the walk over a slot.
use bc_concurrency.Base.{
  ℕ, zero, suc, ◌+◌, ◌-◌, ◌^◌, ◌<◌, ◌≤◌, ◌≡◌, refl, ap, ◌∙◌, false, Option, none, some, List, [],
  ◌∷◌, ◌++◌, length, get_elem?, arith, leb, if◌then◌else◌,
}
use bc_concurrency.Base.Words.{u64}
use bc_concurrency.Context.{Context}

-- `tls_worker`: the index of the worker that it points to, `none` for NULL.
abbrev pub Tls : Type 0
Tls = Option ℕ

-- bc_concurrency_worker_memory: the worker whose memory context it returns.
unfoldable pub worker_memory : Tls → Option ℕ
worker_memory none = none
worker_memory (some i) = some i

-- bc_concurrency_worker_index
unfoldable pub worker_index : Tls → ℕ
worker_index none = 2 ^ 64 - 1
worker_index (some i) = i

-- bc_concurrency_worker_slot
unfoldable pub worker_slot : Context → Tls → ℕ → Option ℕ
worker_slot c none s = none
worker_slot c (some i) s = if leb c.slot_count s then none else c.slot i s

-- bc_concurrency_thread_count and bc_concurrency_effective_worker_count
unfoldable pub thread_count : Context → ℕ
thread_count c = c.thread_count

unfoldable pub effective_worker_count : Context → ℕ
effective_worker_count c = u64 (c.thread_count + 1)

-- What bc_concurrency_foreach_slot does, in its order: it takes and gives back each worker's mutex, and
-- calls the callback.
pub data Visit : Type 0 where
  lock unlock : ℕ → Visit
  callback : Option ℕ → ℕ → Visit

unfoldable pub barrier : ℕ → ℕ → List Visit
barrier zero i = []
barrier (suc n) i = lock i ∷ unlock i ∷ barrier n (i + 1)

unfoldable pub callbacks : ℕ → ℕ → Context → ℕ → List Visit
callbacks zero i c s = []
callbacks (suc n) i c s = callback (c.slot i s) i ∷ callbacks n (i + 1) c s

unfoldable pub foreach_slot : Context → ℕ → List Visit
foreach_slot c s =
    if leb c.slot_count s
    then []
    else barrier c.thread_count 0 ++ callbacks (u64 (c.thread_count + 1)) 0 c s

-- The calls of the callback, with the data and the worker's index.
unfoldable pub calls : List Visit → List (Option ℕ × ℕ)
calls [] = []
calls (lock i ∷ vs) = calls vs
calls (unlock i ∷ vs) = calls vs
calls (callback data_ i ∷ vs) = (data_, i) ∷ calls vs

calls-barrier : (n i : ℕ) (vs : List Visit) → calls (barrier n i ++ vs) ≡ calls vs
unfolding calls barrier
calls-barrier zero i vs = refl
calls-barrier (suc n) i vs = calls-barrier n (i + 1) vs

calls-callbacks :
    (n i : ℕ) (c : Context) (s k : ℕ)
    → (length (calls (callbacks n i c s)) ≡ n)
      × (k < n → get_elem? (calls (callbacks n i c s)) k ≡ some (c.slot (i + k) s, i + k))
unfolding calls callbacks
calls-callbacks zero i c s k = (refl, λ lt. absurd (omega arith))
calls-callbacks (suc n) i c s zero =
    (ap suc (calls-callbacks n (i + 1) c s 0).0, λ lt. ap (λ j. some (c.slot j s, j)) (omega arith))
calls-callbacks (suc n) i c s (suc k) =
    let ih = calls-callbacks n (i + 1) c s k in
    (ap suc ih.0, λ lt. ih.1 (omega arith) ∙ ap (λ j. some (c.slot j s, j)) (omega arith))

-- For a context with fewer than 2 ^ 64 - 1 workers and a registered slot: bc_concurrency_foreach_slot
-- calls its callback as often as bc_concurrency_effective_worker_count says, for each worker in turn and
-- last for the main thread, each time with the data that bc_concurrency_worker_slot returns in the tasks of that worker, and its index.
pub foreach-worker_slot :
    (c : Context) (s i : ℕ)
    → c.thread_count + 1 < 2 ^ 64
    → s < c.slot_count
    → i ≤ thread_count c
    → (length (calls (foreach_slot c s)) ≡ effective_worker_count c)
      × (get_elem? (calls (foreach_slot c s)) i
          ≡ some (worker_slot c (some i) s, worker_index (some i)))
unfolding foreach_slot worker_slot worker_index thread_count effective_worker_count
foreach-worker_slot c s i small lt le =
    let all : u64 (c.thread_count + 1) ≡ c.thread_count + 1 = omega arith in
    let each = calls-callbacks (u64 (c.thread_count + 1)) 0 c s i in
    let registered : leb c.slot_count s ≡ false = ground arith in
    rw registered (
      ap length (calls-barrier c.thread_count 0 (callbacks (u64 (c.thread_count + 1)) 0 c s))
          ∙ each.0,
      ap (λ l. get_elem? l i)
            (calls-barrier c.thread_count 0 (callbacks (u64 (c.thread_count + 1)) 0 c s))
          ∙ each.1 (omega (arith, all))
          ∙ ap (λ j. some (c.slot j s, j)) (omega arith),
    )
