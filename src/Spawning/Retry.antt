-- ===== src/Spawning/Retry.antt =====
-- A first attempt to spawn the workers, and one after a failure.
use bc_concurrency.Base.{
  ℕ, zero, suc, ◌+◌, ◌<◌, ◌≤◌, ◌≡◌, ◌⊎◌, refl, Bool, true, false, ◌&&◌, none, some, Option-cases,
  inl, inr, update, arith, ltb, leb, if◌then◌else◌,
}
use bc_concurrency.Spawning.{
  Answers, Crew, create_threads, stop_started, join_started, spawn_workers, ensure_workers_spawned,
}

create_threads_lem :
    (create : ℕ → Bool) (n i : ℕ) (c : Crew) (j : ℕ)
    → ((create_threads create n i c).0.should_stop ≡ c.should_stop)
      × ((create_threads create n i c).0.workers_spawned ≡ c.workers_spawned)
      × ((create_threads create n i c).1 ≡ none
          → (create_threads create n i c).0.running j
            ≡ (if leb i j && ltb j (i + n) then true else c.running j))
      × ((k : ℕ)
          → (create_threads create n i c).1 ≡ some k
          → (i ≤ k)
            × (k < i + n)
            × ((create_threads create n i c).0.running j
                ≡ (if leb i j && ltb j k then true else c.running j)))
unfolding create_threads
create_threads_lem create zero i c j = (refl, refl, λ e. ground arith, λ k e. cc)
create_threads_lem create (suc n) i c j =
    let ih =
      create_threads_lem create n (i + 1) (record c { running = update c.running i true }) j in
    (
      ground (arith, ih.0),
      ground (arith, ih.1),
      λ e. ground (arith, ih.2),
      λ k e. ground (arith, ih.3 k),
    )

stop_started_lem :
    (n i : ℕ) (c : Crew) (j : ℕ)
    → ((stop_started n i c).should_stop j
        ≡ (if leb i j && ltb j (i + n) then true else c.should_stop j))
      × ((stop_started n i c).running ≡ c.running)
      × ((stop_started n i c).workers_spawned ≡ c.workers_spawned)
unfolding stop_started
stop_started_lem zero i c j = (ground arith, refl, refl)
stop_started_lem (suc n) i c j =
    let ih =
      stop_started_lem n (i + 1) (record c { should_stop = update c.should_stop i true }) j in
    (ground (arith, ih.0), ih.1, ih.2)

join_started_lem :
    (n i : ℕ) (c : Crew) (j : ℕ)
    → ((join_started n i c).running j ≡ (if leb i j && ltb j (i + n) then false else c.running j))
      × ((join_started n i c).should_stop ≡ c.should_stop)
      × ((join_started n i c).workers_spawned ≡ c.workers_spawned)
unfolding join_started
join_started_lem zero i c j = (ground arith, refl, refl)
join_started_lem (suc n) i c j =
    let ih = join_started_lem n (i + 1) (record c { running = update c.running i false }) j in
    (ground (arith, ih.0), ih.1, ih.2)

-- An attempt to spawn n workers where no thread runs: it returns true, every worker's thread runs, and
-- no `should_stop` has changed; or it returns false, no thread runs, and workers_spawned is as before.
pub spawn_cases :
    (a : Answers) (n : ℕ) (c : Crew) (j : ℕ)
    → c.running j ≡ false
    → j < n
    → (((spawn_workers a n c).1 ≡ true)
        × ((spawn_workers a n c).0.running j ≡ true)
        × ((spawn_workers a n c).0.should_stop ≡ c.should_stop)
        × ((spawn_workers a n c).0.workers_spawned ≡ true))
      ⊎ (((spawn_workers a n c).1 ≡ false)
          × ((spawn_workers a n c).0.running j ≡ false)
          × ((spawn_workers a n c).0.workers_spawned ≡ c.workers_spawned))
unfolding spawn_workers
spawn_cases a n c j idle lt = elim (Option-cases (create_threads a.create n 0 c).1) [
  | inl e ↦ let (s, w, r, f) = create_threads_lem a.create n 0 c j in ground (arith, r e)
  | inr (k, e) ↦
      let (s, w, r, f) = create_threads_lem a.create n 0 c j in
      let made = (create_threads a.create n 0 c).0 in
      ground
        (arith, f k e, stop_started_lem k 0 made j, join_started_lem k 0 (stop_started k 0 made) j)
]

failed_attempt :
    (a : Answers) (n k : ℕ) (c : Crew) (j : ℕ)
    → c.workers_spawned ≡ false
    → a.attr_init ≡ true
    → a.attr_setstacksize ≡ true
    → (create_threads a.create n 0 c).1 ≡ some k
    → j < k
    → ((ensure_workers_spawned a n c).0.should_stop j ≡ true)
      × ((ensure_workers_spawned a n c).0.running j ≡ false)
      × ((ensure_workers_spawned a n c).0.workers_spawned ≡ false)
      × (j < n)
unfolding ensure_workers_spawned
failed_attempt a n k c j new i s e lt =
    let (same, w, r, f) = create_threads_lem a.create n 0 c j in
    let made = (create_threads a.create n 0 c).0 in
    ground
      (arith, f k e, stop_started_lem k 0 made j, join_started_lem k 0 (stop_started k 0 made) j)

-- Where a first attempt fails at thread k and a second one succeeds, every worker below k runs with
-- `should_stop` set.
pub retry_stopped :
    (a b : Answers) (n k : ℕ) (c : Crew) (j : ℕ)
    → c.workers_spawned ≡ false
    → a.attr_init ≡ true
    → a.attr_setstacksize ≡ true
    → (create_threads a.create n 0 c).1 ≡ some k
    → (ensure_workers_spawned b n (ensure_workers_spawned a n c).0).1 ≡ true
    → j < k
    → ((ensure_workers_spawned b n (ensure_workers_spawned a n c).0).0.should_stop j ≡ true)
      × ((ensure_workers_spawned b n (ensure_workers_spawned a n c).0).0.running j ≡ true)
unfolding ensure_workers_spawned
retry_stopped a b n k c j new i s e ok lt =
    let (stop, ended, none_, within) = failed_attempt a n k c j new i s e lt in
    let c' = (ensure_workers_spawned a n c).0 in
    elim (spawn_cases b n c' j ended within) [
      | inl (t, r, same, w) ↦ (ground arith, ground arith)
      | inr (t, r, w) ↦ absurd (ground arith)
    ]
