-- ===== src/Queue/Invariant/Others.antt =====
-- One access of a thread keeps what the locals of another thread say.
use bc_concurrency.Base.{
  ℕ, ◌+◌, ◌^◌, ◌≤◌, ◌<◌, ◌≡◌, ◌≢◌, sym, Bool, some, arith, if◌then◌else◌, true, false,
}
use mathlib.Core.Path.{subst}
use bc_concurrency.Queue.{Shape, Cells, slot_data}
use bc_concurrency.Queue.Layout.{IsShaped, slot-lap, slot-eq}
use bc_concurrency.Queue.Steps.{
  Pc, idle, push_check, push_load, push_look, push_claim, push_copy, push_publish, push_done,
  pop_look, pop_claim, pop_copy, pop_release, close_store, move, push_branch, pop_branch,
}
use bc_concurrency.Queue.System.{note}
use bc_concurrency.Queue.Invariant.Defs.{Local, Balanced, pushing, popping}

note-push_branch :
    {A : Type 0} (x : A) (p s : ℕ) (claimed : ℕ → A) → note (push_branch x p s) claimed ≡ claimed
unfolding push_branch
note-push_branch x p s claimed = ground arith

note-pop_branch : {A : Type 0} (p s : ℕ) (claimed : ℕ → A) → note (pop_branch p s) claimed ≡ claimed
unfolding pop_branch
note-pop_branch p s claimed = ground arith

module _ {A : Type 0} {g : Shape} {n : ℕ} {q : Cells A} {claimed : ℕ → A} (s : IsShaped g)
    (two : 2 ≤ g.capacity) (small : n + g.capacity < 2 ^ 63) (b : Balanced g n q claimed)
    (spurious : Bool) where
  open b use {few, order, bound, words, slots}

  -- What another thread knows stays true, where no position is claimed twice on one side.
  abbrev Keeps : Pc A → Pc A → Type 0
  Keeps p o =
      Local g q claimed p
      → Local g q claimed o
      → ((r : ℕ) → pushing p ≡ some r → pushing o ≢ some r)
      → ((r : ℕ) → popping p ≡ some r → popping o ≢ some r)
      → Local g (move g spurious q p).0 (note (move g spurious q p).1 claimed) o

  claim_push : (x : A) (p : ℕ) (o : Pc A) → Keeps (push_claim x p) o
  unfolding move
  claim_push x p idle l k a c = tt
  claim_push x p (push_claim y r) l k a c = ground arith
  claim_push x p (pop_copy r) l k a c = ground (arith, slots p, slot-lap s r)
  claim_push x p (pop_release r v) l k a c = ground (arith, slots p, slot-lap s r)
  claim_push x p _ l k a c = ground arith

  copy_push : (x : A) (p : ℕ) (o : Pc A) → Keeps (push_copy x p) o
  unfolding move slot_data
  copy_push x p idle l k a c = tt
  copy_push x p (push_publish y r) l k a c = ground (arith, slot-eq s p r, slot-eq s r p, a p)
  copy_push x p (pop_copy r) l k a c = ground (arith, slot-eq s p r, slot-eq s r p)
  copy_push x p _ l k a c = ground arith

  publish_push : (x : A) (p : ℕ) (o : Pc A) → Keeps (push_publish x p) o
  unfolding move
  publish_push x p idle l k a c = tt
  publish_push x p (push_claim y r) l k a c = ground (arith, slot-eq s p r)
  publish_push x p (push_copy y r) l k a c = ground (arith, slot-eq s p r, slot-eq s r p, a p)
  publish_push x p (push_publish y r) l k a c = ground (arith, slot-eq s p r, slot-eq s r p, a p)
  publish_push x p (pop_claim r) l k a c = ground (arith, slot-eq s p r, slot-eq s r p)
  publish_push x p (pop_copy r) l k a c = ground (arith, slot-eq s p r, slot-eq s r p)
  publish_push x p (pop_release r v) l k a c = ground (arith, slot-eq s p r, slot-eq s r p)
  publish_push x p _ l k a c = ground arith

  claim_pop : (p : ℕ) (o : Pc A) → Keeps (pop_claim p) o
  unfolding move
  claim_pop p idle l k a c = tt
  claim_pop p (push_copy y r) l k a c = ground arith
  claim_pop p (push_publish y r) l k a c = ground arith
  claim_pop p (pop_claim r) l k a c = ground arith
  claim_pop p _ l k a c = ground arith

  release_pop : (p : ℕ) (v : A) (o : Pc A) → Keeps (pop_release p v) o
  unfolding move
  release_pop p v idle l k a c = tt
  release_pop p v (push_claim y r) l k a c = ground (arith, slot-eq s p r)
  release_pop p v (push_copy y r) l k a c = ground (arith, slot-eq s p r, slot-eq s r p)
  release_pop p v (push_publish y r) l k a c = ground (arith, slot-eq s p r, slot-eq s r p)
  release_pop p v (pop_claim r) l k a c = ground (arith, slot-eq s p r, slot-eq s r p)
  release_pop p v (pop_copy r) l k a c = ground (arith, slot-eq s p r, slot-eq s r p, c p)
  release_pop p v (pop_release r w) l k a c = ground (arith, slot-eq s p r, slot-eq s r p, c p)
  release_pop p v _ l k a c = ground arith

  close-Keeps : (o : Pc A) → Keeps close_store o
  unfolding move
  close-Keeps idle l k a c = tt
  close-Keeps _ l k a c = k

  pub Other-Local : (p o : Pc A) → Keeps p o
  unfolding move
  Other-Local idle o l k a c = k
  Other-Local (push_check x) o l k a c = check q.closed
    where
      check :
          (closed : Bool)
          → Local g q (note (if closed then push_done false else push_load x) claimed) o
      check true = k
      check false = k
  Other-Local (push_look x p) o l k a c =
      subst (λ h. Local g q h o) (sym (note-push_branch x p _ claimed)) k
  Other-Local (push_claim x p) o l k a c = claim_push x p o l k a c
  Other-Local (push_copy x p) o l k a c = copy_push x p o l k a c
  Other-Local (push_publish x p) o l k a c = publish_push x p o l k a c
  Other-Local (pop_look p) o l k a c =
      subst (λ h. Local g q h o) (sym (note-pop_branch p _ claimed)) k
  Other-Local (pop_claim p) o l k a c = claim_pop p o l k a c
  Other-Local (pop_release p v) o l k a c = release_pop p v o l k a c
  Other-Local close_store o l k a c = close-Keeps o l k a c
  Other-Local _ o l k a c = k
