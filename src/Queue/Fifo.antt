-- ===== src/Queue/Fifo.antt =====
-- What the queue promises: a first-in first-out list of at most `capacity` elements that can be
-- closed to further pushes. Pops go on after the close.
use bc_concurrency.Base.{
  ℕ, ◌<◌, ◌≡◌, Bool, true, false, Option, none, some, List, [], ◌∷◌, ◌++◌, length, ltb,
  if◌then◌else◌,
}

pub record Fifo (A : Type 0) : Type 0 where
  pub items : List A
  pub closed : Bool

pub data Op (A : Type 0) : Type 0 where
  push : A → Op A
  pop : Op A
  close : Op A

-- What a call answers: the Boolean of `push`, the element of `pop` (`none` for false).
pub data Reply (A : Type 0) : Type 0 where
  pushed : Bool → Reply A
  popped : Option A → Reply A
  shut : Reply A

module _ {A : Type 0} (capacity : ℕ) where
  abbrev pub push_fifo : Fifo A → A → Fifo A × Reply A
  push_fifo f x =
      if f.closed
      then (f, pushed false)
      else if ltb (length f.items) capacity
      then (record f { items = f.items ++ (x ∷ []) }, pushed true)
      else (f, pushed false)

  abbrev pub pop_items : List A → Bool → Fifo A × Reply A
  pop_items [] closed = (record { items = []; closed = closed }, popped none)
  pop_items (x ∷ xs) closed = (record { items = xs; closed = closed }, popped (some x))

  abbrev pub step_fifo : Fifo A → Op A → Fifo A × Reply A
  step_fifo f (push x) = push_fifo f x
  step_fifo f pop = pop_items f.items f.closed
  step_fifo f close = (record f { closed = true }, shut)

  abbrev pub run_fifo : Fifo A → List (Op A) → List (Reply A)
  run_fifo f [] = []
  run_fifo f (o ∷ os) = (step_fifo f o).1 ∷ run_fifo (step_fifo f o).0 os

-- What one access of one thread does to the list, seen from outside.
pub data Event (A : Type 0) : Type 0 where
  silent : Event A
  enqueued : A → Event A
  dequeued : A → Event A

-- `Fires capacity xs e ys`: the event `e` is allowed at `xs` and turns it into `ys`.
abbrev pub Fires : {A : Type 0} → ℕ → List A → Event A → List A → Type 0
Fires capacity xs silent ys = ys ≡ xs
Fires capacity xs (enqueued x) ys = (length xs < capacity) × (ys ≡ xs ++ (x ∷ []))
Fires capacity xs (dequeued x) ys = xs ≡ x ∷ ys
