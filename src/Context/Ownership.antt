-- ===== src/Context/Ownership.antt =====
-- Which block of the heap belongs to which pointer of a context.
use mathlib.Core.Path.{subst, fun_ext}
use bc_concurrency.Base.{
  ℕ, ◌≡◌, ◌⊎◌, inl, inr, refl, sym, ◌∙◌, Bool, true, false, ◌&&◌, Option, none, some, arith, update,
  ◌==◌, if◌then◌else◌, Bool-cases,
}
use bc_concurrency.Allocator.{Allocator, IsAllocator}

-- The places for a pointer: a field of the context, the array of a worker's slots, a slot of a worker,
-- and a local variable.
pub data Key : Type 0 where
  field : ℕ → Key
  array : ℕ → Key
  slot : ℕ → ℕ → Key
  scratch : Key

abbrev pub key_eq : Key → Key → Bool
key_eq (field m) (field n) = m == n
key_eq (array i) (array j) = i == j
key_eq (slot i s) (slot j t) = i == j && s == t
key_eq scratch scratch = true
key_eq _ _ = false

pub key_eq_sound : (t u : Key) → key_eq t u ≡ true → t ≡ u
key_eq_sound (field m) (field n) h = ground arith
key_eq_sound (array i) (array j) h = ground arith
key_eq_sound (slot i s) (slot j t) h = ground arith
key_eq_sound scratch scratch h = refl
key_eq_sound t u h = cc

pub key_eq_refl : (t : Key) → key_eq t t ≡ true
key_eq_refl (field m) = ground arith
key_eq_refl (array i) = ground arith
key_eq_refl (slot i s) = ground arith
key_eq_refl scratch = refl

abbrev pub put : (Key → Option ℕ) → Key → Option ℕ → Key → Option ℕ
put f t v u = if key_eq t u then v else f u

-- `live` is `before` and the blocks that `f` points to, each from one place.
pub record Owned (before live : ℕ → Bool) (f : Key → Option ℕ) : Type 0 where
  pub kept : (p : ℕ) → before p ≡ true → live p ≡ true
  pub held : (t : Key) (p : ℕ) → f t ≡ some p → (live p ≡ true) × (before p ≡ false)
  pub once : (t u : Key) (p : ℕ) → f t ≡ some p → f u ≡ some p → t ≡ u
  pub whole : (p : ℕ) → live p ≡ true → (before p ≡ true) ⊎ ((t : Key) × (f t ≡ some p))

module _ {before live : ℕ → Bool} {f : Key → Option ℕ} where
  pub Owned-ext :
      (g : Key → Option ℕ) → Owned before live f → ((t : Key) → f t ≡ g t) → Owned before live g
  Owned-ext g v e = subst (Owned before live) (fun_ext e) v

  -- A block that was not live, at a place that was empty.
  pub Owned-put :
      (t : Key) (p : ℕ)
      → Owned before live f
      → live p ≡ false
      → f t ≡ none
      → Owned before (update live p true) (put f t (some p))
  Owned-put t p v dead empty = record {
    kept = λ q b. ground (arith, v.kept q b);
    held = λ u q e. ground (arith, v.held u q, v.kept p, Bool-cases (before p));
    once = λ u w q e k.
        ground (arith, key_eq_sound t u, key_eq_sound t w, v.once u w q, v.held u q, v.held w q);
    whole = λ q e. elim (Bool-cases (p == q)) [
      | inl same ↦ inr (t, ground (arith, key_eq_refl t))
      | inr other ↦ elim (v.whole q (ground arith)) [
        | inl b ↦ inl b
        | inr (u, k) ↦ inr (u, ground (arith, key_eq_sound t u))
      ]
    ];
  }

  -- The block of one place is gone.
  pub Owned-clear :
      (t : Key) (p : ℕ)
      → Owned before live f
      → f t ≡ some p
      → Owned before (update live p false) (put f t none)
  Owned-clear t p v e = record {
    kept = λ q b. ground (arith, v.kept q b, v.held t p e);
    held = λ u q k. ground (arith, v.held u q, v.once t u p, key_eq_refl t);
    once = λ u w q k l. ground (arith, v.once u w q);
    whole = λ q k. elim (v.whole q (ground arith)) [
      | inl b ↦ inl b
      | inr (u, l) ↦ inr (u, ground (arith, key_eq_sound t u))
    ];
  }

  -- A pointer goes to another place.
  pub Owned-move :
      (t u : Key) (p : ℕ)
      → Owned before live f
      → f t ≡ some p
      → f u ≡ none
      → Owned before live (put (put f t none) u (some p))
  Owned-move t u p v e empty = record {
    kept = v.kept;
    held = λ w q k. ground (arith, v.held w q, v.held t p e);
    once = λ w x q k l. ground (
      arith,
      key_eq_sound u w,
      key_eq_sound u x,
      v.once w x q,
      v.once t w p,
      v.once t x p,
      key_eq_refl t,
    );
    whole = λ q k. elim (v.whole q k) [
      | inl b ↦ inl b
      | inr (w, l) ↦ elim (Bool-cases (key_eq t w)) [
        | inl same ↦ inr (u, ground (arith, key_eq_refl u, key_eq_sound t w))
        | inr other ↦ inr (w, ground (arith, key_eq_sound u w))
      ]
    ];
  }

-- A new block takes the place of the block of one pointer.
pub Owned-replace :
    {before live : ℕ → Bool} {f : Key → Option ℕ} (t : Key) (p q : ℕ)
    → Owned before live f
    → f t ≡ some p
    → f scratch ≡ none
    → live q ≡ false
    → Owned before (update (update live q true) p false) (put f t (some q))
Owned-replace {f = f} t p q v e free_ dead =
    let apart : key_eq scratch t ≡ false = ground (arith, key_eq_sound scratch t) in
    let cleared : put f scratch (some q) t ≡ some p = ground arith in
    Owned-ext (put f t (some q))
      (Owned-move {f = put (put f scratch (some q)) t none} scratch t q
        (Owned-clear t p (Owned-put scratch q v dead free_) cleared)
        (ground (arith, key_eq_sound t scratch)) (ground (arith, key_eq_refl t)))
      (λ u. ground (arith, key_eq_sound scratch u, key_eq_sound t u))

-- With no pointer left, the heap is as it was.
pub Owned-none :
    {before live : ℕ → Bool} {f : Key → Option ℕ}
    → Owned before live f
    → ((t : Key) → f t ≡ none)
    → live ≡ before
Owned-none {before} {live} {f} v empty = fun_ext same
  where
    owned_by : (p : ℕ) → (before p ≡ true) ⊎ ((t : Key) × (f t ≡ some p)) → before p ≡ true
    owned_by p (inl b) = b
    owned_by p (inr (t, e)) = cc (empty t)

    same : (p : ℕ) → live p ≡ before p
    same p = elim (Bool-cases (live p)) [
      | inl l ↦ l ∙ sym (owned_by p (v.whole p l))
      | inr d ↦ ground (arith, v.kept p)
    ]

pub Owned-start : (before : ℕ → Bool) → Owned before before (λ _. none)
Owned-start before = record {
  kept = λ p b. b;
  held = λ t p e. cc;
  once = λ t u p e. cc;
  whole = λ p l. inl l;
}

module _ (a : Allocator) (laws : IsAllocator a) (before : ℕ → Bool) where
  pub Owned-allocate :
      (h : a.Heap) (n p : ℕ) (f : Key → Option ℕ) (t : Key)
      → Owned before (a.live h) f
      → (a.allocate h n).1 ≡ some p
      → f t ≡ none
      → Owned before (a.live (a.allocate h n).0) (put f t (some p))
  Owned-allocate h n p f t v e empty =
      subst (λ l. Owned before l (put f t (some p)))
        (fun_ext (λ q. sym (laws.allocate_live h n p q e)))
        (Owned-put t p v (laws.allocate_fresh h n p e) empty)

  pub Owned-refused :
      (h : a.Heap) (n : ℕ) (f : Key → Option ℕ)
      → Owned before (a.live h) f
      → (a.allocate h n).1 ≡ none
      → Owned before (a.live (a.allocate h n).0) f
  Owned-refused h n f v e =
      subst (λ l. Owned before l f) (fun_ext (λ q. sym (laws.allocate_none h n q e))) v

  pub Owned-free :
      (h : a.Heap) (p : ℕ) (f : Key → Option ℕ) (t : Key)
      → Owned before (a.live h) f
      → f t ≡ some p
      → Owned before (a.live (a.free h p)) (put f t none)
  Owned-free h p f t v e =
      subst (λ l. Owned before l (put f t none)) (fun_ext (λ q. sym (laws.free_live h p q)))
        (Owned-clear t p v e)
