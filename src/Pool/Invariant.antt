-- ===== src/Pool/Invariant.antt =====
-- What holds of the workers, the rest of the script and the tasks between two steps.
use mathlib.Core.Path.{subst}
use bc_concurrency.Base.{
  ℕ, ◌<◌, ◌≡◌, ◌≢◌, sym, ap, ◌∙◌, true, false, Option, none, some, List, ◌∷◌, ◌++◌, arith, ltb,
  update_cases,
}
use bc_concurrency.Worker.{MainPc, idle, send_lock, sent, wait_lock, stop_lock, Link}
use bc_concurrency.Worker.Invariant.{LinkInv}
use bc_concurrency.Worker.Tasks.{tasks}
use bc_concurrency.Worker.Progress.{at_rest}
use bc_concurrency.Pool.{Command, Pool, call, set_link}
use bc_concurrency.Pool.Balance.{
  Mode, mode, next_mode, balanced, addressed, in_range, tasks_for, own_tasks, balanced-cons,
  in_range-cons,
}

-- `given i` are the tasks that the whole script hands to worker `i`, and `kept` those of the main
-- thread.
pub record PoolInv {A : Type 0} (n : ℕ) (given : ℕ → List A) (kept : List A) (s : Pool A)
    : Type 0 where
  pub links : (i : ℕ) → LinkInv (s.link i)
  pub resting : (i : ℕ) → s.calling ≢ some i → at_rest (s.link i).main ≡ true
  pub calling_moves : (i : ℕ) → s.calling ≡ some i → (at_rest (s.link i).main ≡ false) × (i < n)
  pub turns : (i : ℕ) → balanced i (mode (s.link i).main) s.script ≡ true
  pub named : in_range n s.script ≡ true
  pub account : (i : ℕ) → tasks (s.link i) ++ tasks_for i s.script ≡ given i
  pub account_main : s.main_ran ++ own_tasks s.script ≡ kept

pub some-inj : {A : Type 0} {a b : A} → some a ≡ some b → a ≡ b
some-inj e = cc

pub ltb→lt : (a b : ℕ) → ltb a b ≡ true → a < b
ltb→lt a b h = ground arith

-- The calls that a script can begin, from the place that it allows.
pub begin-LinkInv :
    {A : Type 0} (l : Link A) (w : List A)
    → LinkInv l
    → (l.main ≡ idle → LinkInv (record l { main = send_lock w }))
      × (l.main ≡ idle → LinkInv (record l { main = stop_lock }))
      × (l.main ≡ sent → LinkInv (record l { main = wait_lock }))
begin-LinkInv l w v = (λ e. ground arith, λ e. ground arith, λ e. ground arith)

module _ {A : Type 0} {n : ℕ} {given : ℕ → List A} {kept : List A} where
  -- A step of a thread inside a call, or of a worker.
  pub set_link-PoolInv :
      (s : Pool A) (c : Option ℕ) (i : ℕ) (l : Link A)
      → PoolInv n given kept s
      → LinkInv l
      → mode l.main ≡ mode (s.link i).main
      → tasks l ≡ tasks (s.link i)
      → (c ≢ some i → at_rest l.main ≡ true)
      → (c ≡ some i → at_rest l.main ≡ false)
      → ((j : ℕ) → c ≡ some j → s.calling ≡ some j)
      → ((j : ℕ) → i ≢ j → s.calling ≡ some j → c ≡ some j)
      → PoolInv n given kept (set_link s c i l)
  set_link-PoolInv s c i l v inv same_mode same_tasks rest moves was is = record {
    links = λ j. update_cases (λ k. LinkInv k) s.link i l j (λ e. inv) (λ e. v.links j);
    resting = λ j.
        update_cases (λ k. c ≢ some j → at_rest k.main ≡ true) s.link i l j
          (λ e d. rest (λ q. d (q ∙ ap some e))) (λ e d. v.resting j (λ q. d (is j e q)));
    calling_moves = λ j.
        update_cases (λ k. c ≡ some j → (at_rest k.main ≡ false) × (j < n)) s.link i l j
          (λ e q. (moves (q ∙ ap some (sym e)), (v.calling_moves j (was j q)).1))
          (λ e q. v.calling_moves j (was j q));
    turns = λ j.
        update_cases (λ k. balanced j (mode k.main) s.script ≡ true) s.link i l j
          (λ e.
            subst (λ x. balanced x (mode l.main) s.script ≡ true) e
              (ap (λ m. balanced i m s.script) same_mode ∙ v.turns i))
          (λ e. v.turns j);
    named = v.named;
    account = λ j.
        update_cases (λ k. tasks k ++ tasks_for j s.script ≡ given j) s.link i l j
          (λ e.
            subst (λ x. tasks l ++ tasks_for x s.script ≡ given x) e
              (ap (λ t. t ++ tasks_for i s.script) same_tasks ∙ v.account i))
          (λ e. v.account j);
    account_main = v.account_main;
  }

  -- The start of a call.
  call-PoolInv :
      (s : Pool A) (i : ℕ) (p : MainPc A) (rest : List (Command A))
      → PoolInv n given kept s
      → s.calling ≡ none
      → LinkInv (record (s.link i) { main = p })
      → at_rest p ≡ false
      → i < n
      → in_range n rest ≡ true
      → s.main_ran ++ own_tasks rest ≡ kept
      → balanced i (mode p) rest ≡ true
      → ((j : ℕ) → i ≢ j → balanced j (mode (s.link j).main) rest ≡ true)
      → tasks (record (s.link i) { main = p }) ++ tasks_for i rest ≡ given i
      → ((j : ℕ) → i ≢ j → tasks (s.link j) ++ tasks_for j rest ≡ given j)
      → PoolInv n given kept (call s i p rest)
  call-PoolInv s i p rest v out inv moves lt named kept_ turn turns account accounts = record {
    links = λ j. update_cases (λ k. LinkInv k) s.link i l j (λ e. inv) (λ e. v.links j);
    resting = λ j.
        update_cases (λ k. some i ≢ some j → at_rest k.main ≡ true) s.link i l j
          (λ e d. absurd (d (ap some e))) (λ e d. v.resting j (λ q. cc));
    calling_moves = λ j.
        update_cases (λ k. some i ≡ some j → (at_rest k.main ≡ false) × (j < n)) s.link i l j
          (λ e q. (moves, rw (← e) lt)) (λ e q. absurd (e (cc)));
    turns = λ j.
        update_cases (λ k. balanced j (mode k.main) rest ≡ true) s.link i l j
          (λ e. subst (λ x. balanced x (mode p) rest ≡ true) e turn) (turns j);
    named = named;
    account = λ j.
        update_cases (λ k. tasks k ++ tasks_for j rest ≡ given j) s.link i l j
          (λ e. subst (λ x. tasks l ++ tasks_for x rest ≡ given x) e account) (accounts j);
    account_main = kept_;
  }
    where
      l : Link A
      l = record (s.link i) { main = p }

  -- A call that the next command begins: its own worker's turn, and everybody's tasks.
  pub start-PoolInv :
      (s : Pool A) (c : Command A) (i : ℕ) (p : MainPc A) (rest : List (Command A))
      → PoolInv n given kept s
      → s.calling ≡ none
      → s.script ≡ c ∷ rest
      → LinkInv (record (s.link i) { main = p })
      → at_rest p ≡ false
      → addressed n c ≡ ltb i n
      → next_mode i (mode (s.link i).main) c ≡ some (mode p)
      → ((j : ℕ) (m : Mode) → i ≢ j → next_mode j m c ≡ some m)
      → own_tasks (c ∷ rest) ≡ own_tasks rest
      → tasks (record (s.link i) { main = p }) ++ tasks_for i rest
        ≡ tasks (s.link i) ++ tasks_for i (c ∷ rest)
      → ((j : ℕ) → i ≢ j → tasks_for j (c ∷ rest) ≡ tasks_for j rest)
      → PoolInv n given kept (call s i p rest)
  start-PoolInv s c i p rest v out e inv moves who mine others own_ account accounts =
      let (this, names) = in_range-cons n c rest (ap (in_range n) (sym e) ∙ v.named) in
      call-PoolInv s i p rest v out inv moves (ltb→lt i n (sym who ∙ this)) names
        (ap (λ l. s.main_ran ++ l) (sym own_ ∙ ap own_tasks (sym e)) ∙ v.account_main)
        (turn i (mode p) mine)
        (λ j ne. turn j (mode (s.link j).main) (others j (mode (s.link j).main) ne))
        (account ∙ ap (λ l. tasks (s.link i) ++ tasks_for i l) (sym e) ∙ v.account i)
        (λ j ne.
          ap (λ l. tasks (s.link j) ++ l) (sym (accounts j ne) ∙ ap (tasks_for j) (sym e))
          ∙ v.account j)
    where
      turn :
          (j : ℕ) (m : Mode)
          → next_mode j (mode (s.link j).main) c ≡ some m
          → balanced j m rest ≡ true
      turn j m h =
          let (m', g, b) =
            balanced-cons j (mode (s.link j).main) c rest
              (ap (balanced j (mode (s.link j).main)) (sym e) ∙ v.turns j) in
          subst (λ k. balanced j k rest ≡ true) (some-inj (sym g ∙ h)) b
