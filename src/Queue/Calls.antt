-- ===== src/Queue/Calls.antt =====
-- A call of the queue that runs to its end with no access of another thread in between.
use bc_concurrency.Base.{ℕ, zero, suc, false, Option, none, some, List, [], ◌∷◌, if◌then◌else◌}
use bc_concurrency.Queue.{Shape, Cells}
use bc_concurrency.Queue.Steps.{
  Pc, push_check, push_done, pop_load, pop_done, close_store, close_done, move,
}
use bc_concurrency.Queue.System.{resting}
use bc_concurrency.Queue.Fifo.{Op, push, pop, close, Reply, pushed, popped, shut}

module _ {A : Type 0} where
  -- The accesses of one thread until it rests; `none` when the fuel is used up. Its compare-exchanges
  -- do not fail spuriously.
  unfoldable pub finish : ℕ → Shape → Cells A → Pc A → Option (Cells A × Pc A)
  finish zero g q p = if resting p then some (q, p) else none
  finish (suc fuel) g q p =
      let rest = finish fuel g (move g false q p).0 (move g false q p).1 in
      if resting p then some (q, p) else rest

  abbrev pub entry : Op A → Pc A
  entry (push x) = push_check x
  entry pop = pop_load
  entry close = close_store

  abbrev pub answer : Pc A → Option (Reply A)
  answer (push_done b) = some (pushed b)
  answer (pop_done r) = some (popped r)
  answer close_done = some shut
  answer _ = none

  abbrev pub reply : Option (Cells A × Pc A) → Option (Cells A × Reply A)
  reply none = none
  reply (some (q, p)) = elim (answer p) [ none ↦ none | some r ↦ some (q, r) ]

  -- One call, with fuel for every access that a call without competition makes.
  unfoldable pub serve : Shape → Cells A → Op A → Option (Cells A × Reply A)
  serve g q o = reply (finish 6 g q (entry o))

  -- A client's calls in order; `none` if one of them does not return.
  unfoldable pub serve_all : Shape → Cells A → List (Op A) → Option (List (Reply A))
  serve_all g q [] = some []
  serve_all g q (o ∷ os) = elim (serve g q o) [
    | none ↦ none
    | some (q', r) ↦ elim (serve_all g q' os) [ none ↦ none | some rs ↦ some (r ∷ rs) ]
  ]
