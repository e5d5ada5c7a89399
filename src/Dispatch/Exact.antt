-- ===== src/Dispatch/Exact.antt =====
-- The tasks that the main thread and the workers run, against the staged ones.
use mathlib.Core.List.{append-nil, append_assoc}
use native.Mathlib.Decide.{dec_lt}
use native.Mathlib.Nat.{pow-suc}
use bc_concurrency.Base.{
  ℕ, zero, suc, ◌+◌, ◌*◌, ◌^◌, ◌≤◌, ◌<◌, ◌≡◌, ◌≢◌, ◌∙◌, ap, sym, refl, Bool, none, some, List, [],
  ◌∷◌, ◌++◌, length, take, ◌⊎◌, drop, get_elem?, take-append-drop, arith,
}
use bc_concurrency.Base.Words.{u64}
use bc_concurrency.Allocator.{Allocator}
use bc_concurrency.ParallelFor.{chunk_count}
use bc_concurrency.ParallelFor.Chunks.{before, before_all, before-le}
use bc_concurrency.Dispatch.{
  Stage, Round, refused, ran, grow, assignment_count, assignments, dispatched, assigned, share_out,
  distribute, dispatch_and_wait,
}

module _ {A : Type 0} where
  -- The lists one after the other.
  unfoldable pub concat : List (List A) → List A
  concat [] = []
  concat (l ∷ ls) = l ++ concat ls

  -- The tasks that have run when the function returns: the workers' in turn, then the main thread's.
  unfoldable pub tasks_run : Round A → List A
  tasks_run refused = []
  tasks_run (ran main workers) = concat workers ++ main

  drop-nil : (n : ℕ) → drop {A = A} n [] ≡ []
  drop-nil zero = refl
  drop-nil (suc n) = refl

  drop-drop : (m n : ℕ) (xs : List A) → drop m (drop n xs) ≡ drop (n + m) xs
  drop-drop m zero xs = ap (λ k. drop k xs) (omega arith)
  drop-drop m (suc n) [] = drop-nil m ∙ sym (drop-nil (suc n + m))
  drop-drop m (suc n) (x ∷ xs) =
      drop-drop m n xs ∙ ap (λ k. drop k (x ∷ xs)) {x = suc (n + m)} (omega arith)

  drop-length : (xs : List A) → drop (length xs) xs ≡ []
  drop-length [] = refl
  drop-length (x ∷ xs) = drop-length xs

  concat-dispatched : (ls : List (List A)) → concat (dispatched ls) ≡ concat ls
  unfolding concat dispatched
  concat-dispatched [] = refl
  concat-dispatched ([] ∷ rest) = concat-dispatched rest
  concat-dispatched ((t ∷ ts) ∷ rest) = ap (λ l. (t ∷ ts) ++ l) (concat-dispatched rest)

  -- The last of `n + 1` lists is the main thread's.
  pub concat-last :
      (n : ℕ) (ls : List (List A))
      → length ls ≡ suc n
      → concat (take n ls) ++ assigned (get_elem? ls n) ≡ concat ls
  unfolding concat
  concat-last n [] e = absurd (omega arith)
  concat-last zero (l ∷ []) e = sym (append-nil l)
  concat-last zero (l ∷ k ∷ ls) e = absurd (omega arith)
  concat-last (suc n) (l ∷ ls) e =
      append_assoc l (concat (take n ls)) (assigned (get_elem? ls n))
      ∙ ap (λ r. l ++ r) (concat-last n ls (omega arith))

  pub length-assignments :
      (tasks : List A) (count n i offset : ℕ) → length (assignments tasks count n i offset) ≡ n
  unfolding assignments
  length-assignments tasks count zero i offset = refl
  length-assignments tasks count (suc n) i offset =
      ap suc (length-assignments tasks count n (i + 1) _)

  module _ (tasks : List A) (count : ℕ) (small : length tasks < 2 ^ 64) (pos : 0 < count) where
    -- The assignments from `i` on hold the tasks from the first of `i` to the last.
    pub concat-assignments :
        (n i offset : ℕ)
        → i + n ≡ count
        → offset ≡ before (length tasks) count i
        → concat (assignments tasks count n i offset) ≡ drop offset tasks
    unfolding concat assignments assignment_count before chunk_count
    concat-assignments zero i offset e o =
        let all : offset ≡ length tasks =
          o
          ∙ ap (before (length tasks) count) (omega arith)
          ∙ before_all (length tasks) count small pos in
        sym (ap (λ k. drop k tasks) all ∙ drop-length tasks)
    concat-assignments (suc n) i offset e o =
        ap (λ r. take c (drop offset tasks) ++ r)
          (concat-assignments n (i + 1) (u64 (offset + c)) (omega arith) next)
        ∙ ap (λ k. take c (drop offset tasks) ++ drop k tasks) in_words
        ∙ ap (λ r. take c (drop offset tasks) ++ r) (sym (drop-drop c offset tasks))
        ∙ take-append-drop c (drop offset tasks)
      where
        c : ℕ
        c = assignment_count (length tasks) count i

        step : offset + c ≡ before (length tasks) count (suc i)
        step = omega (arith, o)

        in_words : u64 (offset + c) ≡ offset + c
        in_words =
            omega (arith, step, before-le (length tasks) count (suc i) (omega arith) small pos)

        next : u64 (offset + c) ≡ before (length tasks) count (i + 1)
        next = in_words ∙ step ∙ ap (before (length tasks) count) {x = suc i} (omega arith)

  share_out-tasks :
      (tasks : List A) (n : ℕ)
      → length tasks < 2 ^ 64
      → n + 1 < 2 ^ 64
      → tasks_run (share_out tasks n) ≡ tasks
  unfolding tasks_run share_out before
  share_out-tasks tasks n small words =
      ap (λ l. l ++ assigned (get_elem? all n)) (concat-dispatched (take n all))
      ∙ concat-last n all (length-assignments tasks _ _ 0 0 ∙ whole)
      ∙ concat-assignments tasks (u64 (n + 1)) small (omega arith) (u64 (n + 1)) 0 0 (omega arith)
          refl
    where
      all : List (List A)
      all = assignments tasks (u64 (n + 1)) (u64 (n + 1)) 0 0

      whole : u64 (n + 1) ≡ suc n
      whole = omega arith

  module _ (a : Allocator) where
    -- For fewer than 2 ^ 64 staged tasks and fewer than 2 ^ 64 - 1 workers, a dispatch that returns true
    -- has run exactly the staged tasks, the workers' in turn followed by the main thread's in the order
    -- in which they were staged, and has emptied the staging list; one that returns false leaves the
    -- stage as it was.
    pub dispatch_exact :
        (fuel : ℕ) (spawned : Bool) (h : a.Heap) (n : ℕ) (s : Stage A) {h' : a.Heap} {s' : Stage A}
        {r : Round A}
        → length s.staging < 2 ^ 64
        → n + 1 < 2 ^ 64
        → dispatch_and_wait a fuel spawned h n s ≡ some (h', s', r)
        → ((r ≢ refused) × (tasks_run r ≡ s.staging) × (s'.staging ≡ []))
          ⊎ ((r ≡ refused) × (s' ≡ s))
    unfolding dispatch_and_wait distribute tasks_run concat share_out
    dispatch_exact fuel spawned h n s small words e =
        ground (arith, share_out-tasks s.staging n small words)

-- The doubling loop ends, once the capacity times 2 ^ r reaches the number of tasks.
grow_total :
    (r fuel start count : ℕ)
    → r < fuel
    → 0 < start
    → count ≤ 2 ^ 63
    → count ≤ start * 2 ^ r
    → grow fuel start count ≢ none
unfolding grow
grow_total r zero start count f pos small enough e = absurd (omega arith)
grow_total zero (suc fuel) start count f pos small enough e = ground (arith, one)
  where
    one : start * 2 ^ 0 ≡ start
    one = omega arith
grow_total (suc r) (suc fuel) start count f pos small enough e = elim (dec_lt start count) [
  | no stop ↦ ground arith
  | yes more ↦
      let whole : u64 (start * 2) ≡ start * 2 = omega arith in
      let double : start * 2 ^ suc r ≡ start * 2 * 2 ^ r =
        ap (λ p. start * p) {x = 2 ^ suc r} {y = 2 * 2 ^ r} (omega (arith, pow-suc 2 r))
        ∙ grind arith in
      let next : count ≤ start * 2 * 2 ^ r = omega (arith, double) in
      let still = grow_total r fuel (start * 2) count (omega arith) (omega arith) small next in
      ground (arith, whole, ap (λ c. grow fuel c count) whole, still)
]

module _ (a : Allocator) {A : Type 0} where
  -- With a dispatch capacity above 0 and at most 2 ^ 63 staged tasks, a dispatch returns, for 64 rounds
  -- of fuel or more.
  pub dispatch_total :
      (fuel : ℕ) (spawned : Bool) (h : a.Heap) (n : ℕ) (s : Stage A)
      → 64 ≤ fuel
      → 0 < s.dispatch_capacity
      → length s.staging ≤ 2 ^ 63
      → dispatch_and_wait a fuel spawned h n s ≢ none
  unfolding dispatch_and_wait distribute
  dispatch_total fuel spawned h n s f pos small e = ground (
    arith,
    grow_total 63 fuel s.dispatch_capacity (length s.staging) (omega arith) pos small room,
  )
    where
      room : length s.staging ≤ s.dispatch_capacity * 2 ^ 63
      room = omega arith
