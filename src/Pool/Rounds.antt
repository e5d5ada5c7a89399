-- ===== src/Pool/Rounds.antt =====
-- The scripts of the code are balanced, and what they hand to whom.
use mathlib.Core.List.{append_assoc}
use bc_concurrency.Base.{
  ℕ, zero, suc, ◌+◌, ◌<◌, ◌≤◌, ◌≡◌, refl, ap, ◌∙◌, List, [], ◌∷◌, ◌++◌, length, get_elem?, arith,
  ◌==◌, if◌then◌else◌,
}
use bc_concurrency.Dispatch.{assigned}
use bc_concurrency.Pool.{Command}
use bc_concurrency.Pool.Balance.{Mode, free, busy, balanced, in_range, tasks_for, own_tasks}
use bc_concurrency.Pool.Scripts.{sends, awaits, owns, round}

module _ {A : Type 0} where
  -- A worker below the first that is named is not concerned.
  below_sends :
      (j : ℕ) (m : Mode) (k : ℕ) (ws : List (List A)) (rest : List (Command A))
      → j < k
      → (balanced j m (sends k ws ++ rest) ≡ balanced j m rest)
        × (tasks_for j (sends k ws ++ rest) ≡ tasks_for j rest)
  unfolding sends balanced tasks_for
  below_sends j m k [] rest h = (refl, refl)
  below_sends j m k ([] ∷ ws) rest h = below_sends j m (k + 1) ws rest (omega arith)
  below_sends j m k ((t ∷ ts) ∷ ws) rest h =
      ground (arith, below_sends j m (k + 1) ws rest (omega arith))

  below_awaits :
      (j : ℕ) (m : Mode) (k : ℕ) (ws : List (List A)) (rest : List (Command A))
      → j < k
      → balanced j m (awaits k ws ++ rest) ≡ balanced j m rest
  unfolding awaits balanced
  below_awaits j m k [] rest h = refl
  below_awaits j m k ([] ∷ ws) rest h = below_awaits j m (k + 1) ws rest (omega arith)
  below_awaits j m k ((t ∷ ts) ∷ ws) rest h =
      ground (arith, below_awaits j m (k + 1) ws rest (omega arith))

  abbrev busy_if : List A → Mode
  busy_if [] = free
  busy_if (t ∷ ts) = busy

  -- The assignment of worker `j` among those from `k` on.
  portion : ℕ → ℕ → List (List A) → List A
  portion j k [] = []
  portion j k (w ∷ ws) = if k == j then w else portion j (k + 1) ws

  share_lem :
      (i j k : ℕ) (ws : List (List A)) → k + i ≡ j → portion j k ws ≡ assigned (get_elem? ws i)
  unfolding portion
  share_lem i j k [] e = refl
  share_lem zero j k (w ∷ ws) e = ground arith
  share_lem (suc i) j k (w ∷ ws) e = ground (arith, share_lem i j (k + 1) ws (omega arith))

  sends-balanced :
      (j k : ℕ) (ws : List (List A)) (rest : List (Command A))
      → balanced j free (sends k ws ++ rest) ≡ balanced j (busy_if (portion j k ws)) rest
  unfolding sends balanced portion
  sends-balanced j k [] rest = refl
  sends-balanced j k ([] ∷ ws) rest =
      ground (arith, below_sends j free (k + 1) ws rest, sends-balanced j (k + 1) ws rest)
  sends-balanced j k ((t ∷ ts) ∷ ws) rest =
      ground (arith, below_sends j busy (k + 1) ws rest, sends-balanced j (k + 1) ws rest)

  awaits-balanced :
      (j k : ℕ) (ws : List (List A)) (rest : List (Command A))
      → balanced j (busy_if (portion j k ws)) (awaits k ws ++ rest) ≡ balanced j free rest
  unfolding awaits balanced portion
  awaits-balanced j k [] rest = refl
  awaits-balanced j k ([] ∷ ws) rest =
      ground (arith, below_awaits j free (k + 1) ws rest, awaits-balanced j (k + 1) ws rest)
  awaits-balanced j k ((t ∷ ts) ∷ ws) rest =
      ground (arith, below_awaits j free (k + 1) ws rest, awaits-balanced j (k + 1) ws rest)

  owns_lem :
      (j : ℕ) (m : Mode) (n : ℕ) (ts : List A) (rest : List (Command A))
      → (balanced j m (owns ts ++ rest) ≡ balanced j m rest)
        × (in_range n (owns ts ++ rest) ≡ in_range n rest)
        × (tasks_for j (owns ts ++ rest) ≡ tasks_for j rest)
        × (own_tasks (owns ts ++ rest) ≡ ts ++ own_tasks rest)
  unfolding owns balanced in_range tasks_for own_tasks
  owns_lem j m n [] rest = (refl, refl, refl, refl)
  owns_lem j m n (t ∷ ts) rest =
      let ih = owns_lem j m n ts rest in (ih.0, ih.1, ih.2, ap (λ l. t ∷ l) ih.3)

  tasks_for-sends :
      (j k : ℕ) (ws : List (List A)) (rest : List (Command A))
      → tasks_for j (sends k ws ++ rest) ≡ portion j k ws ++ tasks_for j rest
  unfolding sends tasks_for portion
  tasks_for-sends j k [] rest = refl
  tasks_for-sends j k ([] ∷ ws) rest =
      ground (arith, below_sends j free (k + 1) ws rest, tasks_for-sends j (k + 1) ws rest)
  tasks_for-sends j k ((t ∷ ts) ∷ ws) rest =
      ground (arith, below_sends j free (k + 1) ws rest, tasks_for-sends j (k + 1) ws rest)

  awaits_lem :
      (j k : ℕ) (ws : List (List A)) (rest : List (Command A))
      → (tasks_for j (awaits k ws ++ rest) ≡ tasks_for j rest)
        × (own_tasks (awaits k ws ++ rest) ≡ own_tasks rest)
        × (own_tasks (sends k ws ++ rest) ≡ own_tasks rest)
  unfolding sends awaits tasks_for own_tasks
  awaits_lem j k [] rest = (refl, refl, refl)
  awaits_lem j k ([] ∷ ws) rest = awaits_lem j (k + 1) ws rest
  awaits_lem j k ((t ∷ ts) ∷ ws) rest = awaits_lem j (k + 1) ws rest

  in_range-round :
      (n k : ℕ) (ws : List (List A)) (rest : List (Command A))
      → k + length ws ≤ n
      → (in_range n (sends k ws ++ rest) ≡ in_range n rest)
        × (in_range n (awaits k ws ++ rest) ≡ in_range n rest)
  unfolding sends awaits in_range
  in_range-round n k [] rest h = (refl, refl)
  in_range-round n k ([] ∷ ws) rest h = in_range-round n (k + 1) ws rest (omega arith)
  in_range-round n k ((t ∷ ts) ∷ ws) rest h =
      let ih = in_range-round n (k + 1) ws rest (omega arith) in (ground arith, ground arith)

  -- A round leaves every worker free, hands each its assignment, and leaves the rest to the main thread.
  pub round_lem :
      (j n : ℕ) (ws : List (List A)) (mine : List A) (rest : List (Command A))
      → length ws ≤ n
      → (balanced j free (round ws mine ++ rest) ≡ balanced j free rest)
        × (in_range n (round ws mine ++ rest) ≡ in_range n rest)
        × (tasks_for j (round ws mine ++ rest) ≡ assigned (get_elem? ws j) ++ tasks_for j rest)
        × (own_tasks (round ws mine ++ rest) ≡ mine ++ own_tasks rest)
  unfolding round
  round_lem j n ws mine rest h = (
    ap (balanced j free) flat
        ∙ sends-balanced j 0 ws (owns mine ++ (awaits 0 ws ++ rest))
        ∙ (owns_lem j (busy_if (portion j 0 ws)) n mine (awaits 0 ws ++ rest)).0
        ∙ awaits-balanced j 0 ws rest,
    ap (in_range n) flat
        ∙ (in_range-round n 0 ws (owns mine ++ (awaits 0 ws ++ rest)) (omega arith)).0
        ∙ (owns_lem j free n mine (awaits 0 ws ++ rest)).1
        ∙ (in_range-round n 0 ws rest (omega arith)).1,
    ap (tasks_for j) flat
        ∙ tasks_for-sends j 0 ws (owns mine ++ (awaits 0 ws ++ rest))
        ∙ ap (λ l. portion j 0 ws ++ l)
            ((owns_lem j free n mine (awaits 0 ws ++ rest)).2 ∙ (awaits_lem j 0 ws rest).0)
        ∙ ap (λ l. l ++ tasks_for j rest) (share_lem j j 0 ws (omega arith)),
    ap own_tasks flat
        ∙ (awaits_lem j 0 ws (owns mine ++ (awaits 0 ws ++ rest))).2
        ∙ (owns_lem j free n mine (awaits 0 ws ++ rest)).3
        ∙ ap (λ l. mine ++ l) (awaits_lem j 0 ws rest).1,
  )
    where
      flat : round ws mine ++ rest ≡ sends 0 ws ++ (owns mine ++ (awaits 0 ws ++ rest))
      flat = simp append_assoc

  pub owns_free :
      (j n : ℕ) (ts : List A) (rest : List (Command A))
      → (balanced j free (owns ts ++ rest) ≡ balanced j free rest)
        × (in_range n (owns ts ++ rest) ≡ in_range n rest)
        × (tasks_for j (owns ts ++ rest) ≡ tasks_for j rest)
        × (own_tasks (owns ts ++ rest) ≡ ts ++ own_tasks rest)
  owns_free j n ts rest = owns_lem j free n ts rest
