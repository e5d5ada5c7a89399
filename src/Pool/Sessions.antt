-- ===== src/Pool/Sessions.antt =====
-- A client's dispatches over one context, followed by the shutdown of its workers.
use mathlib.Core.List.{append-nil}
use bc_concurrency.Base.{
  ℕ, zero, suc, ◌+◌, ◌<◌, ◌≤◌, ◌≡◌, ◌⊎◌, refl, ap, ◌∙◌, true, ◌&&◌, List, [], ◌∷◌, ◌++◌, arith, ltb,
  leb, if◌then◌else◌,
}
use bc_concurrency.Pool.{Command}
use bc_concurrency.Pool.Balance.{Mode, free, halted, balanced, in_range}
use bc_concurrency.Pool.Runs.{IsScript}
use bc_concurrency.Pool.Scripts.{stops, joins, shutdown, session}
use bc_concurrency.Pool.DispatchRun.{dispatch_lem}

shutdown-range :
    (A : Type 0) (n k i : ℕ)
    → i + k ≤ n
    → (in_range {A = A} n (stops k i) ≡ true) × (in_range {A = A} n (joins k i) ≡ true)
unfolding stops joins in_range
shutdown-range A n zero i h = (refl, refl)
shutdown-range A n (suc k) i h =
    let ih = shutdown-range A n k (i + 1) (omega arith) in (ground arith, ground arith)

module _ {A : Type 0} where
  -- After the stops, the workers that are named are halted; the joins leave them so.
  stops_above :
      (j : ℕ) (m : Mode) (n i : ℕ) (rest : List (Command A))
      → j < i
      → balanced j m (stops n i ++ rest) ≡ balanced j m rest
  unfolding stops balanced
  stops_above j m zero i rest h = refl
  stops_above j m (suc n) i rest h = ground (arith, stops_above j m n (i + 1) rest)

  stops_lem :
      (j n i : ℕ) (rest : List (Command A))
      → balanced j free (stops n i ++ rest)
        ≡ balanced j (if leb i j && ltb j (i + n) then halted else free) rest
  unfolding stops balanced
  stops_lem j zero i rest = ground arith
  stops_lem j (suc n) i rest =
      ground (arith, stops_lem j n (i + 1) rest, stops_above j halted n (i + 1) rest)

  joins_lem :
      (j n i : ℕ) (rest : List (Command A))
      → (balanced j halted (joins n i ++ rest) ≡ balanced j halted rest)
        × ((j < i) ⊎ (i + n ≤ j) → balanced j free (joins n i ++ rest) ≡ balanced j free rest)
  unfolding joins balanced
  joins_lem j zero i rest = (refl, λ o. refl)
  joins_lem j (suc n) i rest =
      let ih = joins_lem j n (i + 1) rest in (ground arith, λ o. ground (arith, ih.1))

  in_range-append :
      (n : ℕ) (cs ds : List (Command A))
      → in_range n cs ≡ true
      → in_range n ds ≡ true
      → in_range n (cs ++ ds) ≡ true
  unfolding in_range
  in_range-append n [] ds h k = k
  in_range-append n (c ∷ cs) ds h k = ground (arith, in_range-append n cs ds)

  shutdown-IsScript : (n : ℕ) → IsScript {A = A} n (shutdown n)
  unfolding shutdown balanced
  shutdown-IsScript n = record {
    turns = λ j. ground (
      arith,
      stops_lem j n 0 (joins n 0),
      joins_lem j n 0 [],
      ap (balanced {A = A} j free) (append-nil (joins n 0)),
      ap (balanced {A = A} j halted) (append-nil (joins n 0)),
    );
    named =
        in_range-append n (stops n 0) (joins n 0) (shutdown-range A n n 0 (omega arith)).0
          (shutdown-range A n n 0 (omega arith)).1;
  }

  -- A client's dispatches followed by the shutdown of the context make a balanced script over its
  -- workers.
  pub session-IsScript : (n : ℕ) (batches : List (List A)) → IsScript n (session n batches)
  unfolding session
  session-IsScript n [] = shutdown-IsScript n
  session-IsScript n (tasks ∷ batches) =
      let ih = session-IsScript n batches in
      record {
        turns = λ j. (dispatch_lem j n tasks (session n batches)).0 ∙ ih.turns j;
        named = (dispatch_lem 0 n tasks (session n batches)).1 ∙ ih.named;
      }
