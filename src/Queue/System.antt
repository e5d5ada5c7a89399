-- ===== src/Queue/System.antt =====
-- Any number of threads over one queue, interleaved one access at a time. `claimed` is not part of
-- the program: it remembers, for each position, the element whose push won it.
use bc_concurrency.Base.{ℕ, suc, ◌≡◌, Bool, true, false, update}
use bc_concurrency.Queue.{Shape, Cells, fresh_cells}
use bc_concurrency.Queue.Steps.{
  Pc, idle, push_check, push_copy, push_done, pop_load, pop_done, close_store, close_done, move,
}

pub data Call (A : Type 0) : Type 0 where
  push : A → Call A
  pop : Call A
  close : Call A

pub record System (A : Type 0) : Type 0 where
  pub cells : Cells A
  pub pc : ℕ → Pc A
  pub claimed : ℕ → A

module _ {A : Type 0} where
  abbrev pub enter : Call A → Pc A
  enter (push x) = push_check x
  enter pop = pop_load
  enter close = close_store

  -- A thread that may begin a call.
  abbrev pub resting : Pc A → Bool
  resting idle = true
  resting (push_done _) = true
  resting (pop_done _) = true
  resting close_done = true
  resting _ = false

  abbrev pub note : Pc A → (ℕ → A) → ℕ → A
  note (push_copy x position) claimed = update claimed position x
  note _ claimed = claimed

  abbrev pub begin : ℕ → Call A → System A → System A
  begin i c s = record s { pc = update s.pc i (enter c) }

  -- Thread `i` makes its next access.
  abbrev pub advance : Shape → Bool → ℕ → System A → System A
  advance g spurious i s = record {
    cells = (move g spurious s.cells (s.pc i)).0;
    pc = update s.pc i (move g spurious s.cells (s.pc i)).1;
    claimed = note (move g spurious s.cells (s.pc i)).1 s.claimed;
  }

  abbrev pub init : A → Shape → System A
  init blank g = record { cells = fresh_cells blank g; pc = λ _. idle; claimed = λ _. blank }

pub data Step {A : Type 0} (g : Shape) (s : System A) : System A → Type 0 where
  call : (i : ℕ) (c : Call A) → resting (s.pc i) ≡ true → Step g s (begin i c s)
  access : (i : ℕ) (spurious : Bool) → Step g s (advance g spurious i s)

-- The states that `n` steps reach from a new queue.
pub data Reach {A : Type 0} (blank : A) (g : Shape) : ℕ → System A → Type 0 where
  start : Reach blank g 0 (init blank g)
  later : {n : ℕ} {s t : System A} → Reach blank g n s → Step g s t → Reach blank g (suc n) t
