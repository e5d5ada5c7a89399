-- ===== src/Pool/Balance.antt =====
-- Which scripts the code makes: each worker is handed work, waited for, and stopped, in turn.
use bc_concurrency.Base.{
  ℕ, ◌≡◌, refl, Bool, true, false, ◌&&◌, Option, none, some, List, [], ◌∷◌, ◌++◌, arith, ltb, ◌==◌,
  if◌then◌else◌,
}
use bc_concurrency.Worker.{
  WorkerPc, enter, run, MainPc, idle, send_lock, send_store, send_signal, send_unlock, sent,
  stop_lock, stop_store, stop_signal, stop_unlock, stopped, Link, rouse_main, main_step,
  worker_step,
}
use bc_concurrency.Worker.Progress.{at_rest}
use bc_concurrency.Pool.{Command, send, own, await, stop, join}

pub data Mode : Type 0 where
  free busy halted : Mode

-- What the current call on a worker leaves it in.
abbrev pub mode : {A : Type 0} → MainPc A → Mode
mode (send_lock w) = busy
mode (send_store w) = busy
mode send_signal = busy
mode send_unlock = busy
mode sent = busy
mode stop_lock = halted
mode stop_store = halted
mode stop_signal = halted
mode stop_unlock = halted
mode stopped = halted
mode _ = free

abbrev pub if_mode : Mode → Mode → Mode → Option Mode
if_mode free free m = some m
if_mode busy busy m = some m
if_mode halted halted m = some m
if_mode _ _ m = none

if_some :
    (o : Option Mode) (f : Mode → Bool)
    → (elim o [ none ↦ false | some m' ↦ f m' ]) ≡ true
    → (m : Mode) × (o ≡ some m) × (f m ≡ true)
if_some none f h = cc
if_some (some m) f h = (m, refl, h)

module _ {A : Type 0} where
  abbrev pub next_mode : ℕ → Mode → Command A → Option Mode
  next_mode i m (send j w) = if j == i then if_mode free m busy else some m
  next_mode i m (own t) = some m
  next_mode i m (await j) = if j == i then if_mode busy m free else some m
  next_mode i m (stop j) = if j == i then if_mode free m halted else some m
  next_mode i m (join j) = if j == i then if_mode halted m halted else some m

  -- Worker `i` is not left with work that nobody waits for.
  unfoldable pub balanced : ℕ → Mode → List (Command A) → Bool
  balanced i m [] = elim m [ busy ↦ false | _ ↦ true ]
  balanced i m (c ∷ cs) = elim (next_mode i m c) [ none ↦ false | some m' ↦ balanced i m' cs ]

  abbrev pub addressed : ℕ → Command A → Bool
  addressed n (send i w) = ltb i n
  addressed n (own t) = true
  addressed n (await i) = ltb i n
  addressed n (stop i) = ltb i n
  addressed n (join i) = ltb i n

  -- Only workers below `n` are named.
  unfoldable pub in_range : ℕ → List (Command A) → Bool
  in_range n [] = true
  in_range n (c ∷ cs) = addressed n c && in_range n cs

  -- The tasks that a script hands to worker `i`, and those that the main thread runs.
  unfoldable pub tasks_for : ℕ → List (Command A) → List A
  tasks_for i [] = []
  tasks_for i (send j w ∷ cs) = (if j == i then w else []) ++ tasks_for i cs
  tasks_for i (own t ∷ cs) = tasks_for i cs
  tasks_for i (await j ∷ cs) = tasks_for i cs
  tasks_for i (stop j ∷ cs) = tasks_for i cs
  tasks_for i (join j ∷ cs) = tasks_for i cs

  unfoldable pub own_tasks : List (Command A) → List A
  own_tasks [] = []
  own_tasks (send j w ∷ cs) = own_tasks cs
  own_tasks (own t ∷ cs) = t ∷ own_tasks cs
  own_tasks (await j ∷ cs) = own_tasks cs
  own_tasks (stop j ∷ cs) = own_tasks cs
  own_tasks (join j ∷ cs) = own_tasks cs

  pub main_step-mode :
      (p : MainPc A) (l : Link A) {l' : Link A}
      → l.main ≡ p
      → main_step p l ≡ some l'
      → mode l'.main ≡ mode l.main
  unfolding main_step
  main_step-mode idle l m e = cc
  main_step-mode p l m e = ground arith

  -- A worker's step moves the main thread only from one place in the wait to another.
  pub worker_step-main :
      (p : WorkerPc A) (l : Link A) {l' : Link A}
      → worker_step p l ≡ some l'
      → (mode l'.main ≡ mode l.main) × (at_rest l'.main ≡ at_rest l.main)
  unfolding worker_step rouse_main
  worker_step-main enter l e = ground arith
  worker_step-main (run []) l e = ground arith
  worker_step-main (run (t ∷ ts)) l e = ground arith
  worker_step-main p l e = ground arith

  -- What the head of a balanced script says of a worker.
  pub balanced-cons :
      (i : ℕ) (m : Mode) (c : Command A) (cs : List (Command A))
      → balanced i m (c ∷ cs) ≡ true
      → (m' : Mode) × (next_mode i m c ≡ some m') × (balanced i m' cs ≡ true)
  unfolding balanced
  balanced-cons i m c cs h = if_some (next_mode i m c) (λ m'. balanced i m' cs) h

  pub in_range-cons :
      (n : ℕ) (c : Command A) (cs : List (Command A))
      → in_range n (c ∷ cs) ≡ true
      → (addressed n c ≡ true) × (in_range n cs ≡ true)
  unfolding in_range
  in_range-cons n c cs h = ground arith

pub rest-mode :
    {A : Type 0} (p : MainPc A)
    → at_rest p ≡ true
    → (mode p ≡ free → p ≡ idle) × (mode p ≡ busy → p ≡ sent) × (mode p ≡ halted → p ≡ stopped)
rest-mode idle r = (λ e. refl, λ e. cc, λ e. cc)
rest-mode p r = (λ e. ground arith, λ e. ground arith, λ e. ground arith)
