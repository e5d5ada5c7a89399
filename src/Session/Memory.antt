-- ===== src/Session/Memory.antt =====
-- What the calls of a session do to the blocks of the context.
use bc_concurrency.Base.{
  ℕ, zero, suc, ◌+◌, ◌≡◌, inl, inr, refl, sym, ap, Bool, true, false, Bool-cases, Option, none,
  some, List, length, update, arith, ◌==◌,
}
use mathlib.Core.Path.{subst, fun_ext}
use bc_concurrency.Allocator.{Allocator}
use bc_concurrency.Context.{Context}
use bc_concurrency.Context.Ownership.{
  Key, field, array, slot, scratch, put, Owned, Owned-ext, Owned-replace,
}
use bc_concurrency.Context.Pointers.{pointers}
use bc_concurrency.Dispatch.Submission.{Entry, submit, submit_rounds, submit_batch}
use bc_concurrency.Session.{Staging, IsStaging, staging_array}

module _ {before : ℕ → Bool} where
  -- The blocks stay, with the same pointers or with one block replaced.
  pub Owned-stays :
      {live live' : ℕ → Bool} {f : Key → Option ℕ}
      → Owned before live f
      → ((q : ℕ) → live' q ≡ live q)
      → Owned before live' f
  Owned-stays {f = f} v e = subst (λ l. Owned before l f) (fun_ext (λ q. sym (e q))) v

  pub Owned-replaced :
      {live live' : ℕ → Bool} {f : Key → Option ℕ} (t : Key) (p q : ℕ)
      → Owned before live f
      → f t ≡ some p
      → f scratch ≡ none
      → live q ≡ false
      → ((r : ℕ) → live' r ≡ update (update live q true) p false r)
      → Owned before live' (put f t (some q))
  Owned-replaced {f = f} t p q v e free_ dead after =
      Owned-stays (Owned-replace t p q v e free_ dead) after

module _ (a : Allocator) (g : Staging a) (laws : IsStaging a g) (before : ℕ → Bool)
    (c : Context) where
  -- The pointers of the context, with the staging array's storage at `p`.
  abbrev pub stored_at : ℕ → Key → Option ℕ
  stored_at p = pointers (record c { staging = p })

  push-Owned :
      (h : a.Heap) (p n : ℕ)
      → Owned before (a.live h) (stored_at p)
      → Owned before (a.live (g.push h p n).0) (stored_at (g.push h p n).1)
  push-Owned h p n v = elim (laws.push_cases h p n) [
    | inl (same, stays) ↦
        Owned-ext (stored_at (g.push h p n).1) (Owned-stays v stays)
          (λ t. ap (λ r. stored_at r t) (sym same))
    | inr (fresh, after) ↦
        Owned-ext (stored_at (g.push h p n).1)
          (Owned-replaced (field 1) p (g.push h p n).1 v refl refl fresh after) (λ t. moved t)
  ]
    where
      moved :
          (t : Key)
          → put (stored_at p) (field 1) (some (g.push h p n).1) t ≡ stored_at (g.push h p n).1 t
      moved (field k) = ground arith
      moved (array i) = refl
      moved (slot i s) = refl
      moved scratch = refl

  module _ {F X : Type 0} where
    abbrev pub Stored : a.Heap × ℕ × List (Entry F X) → Type 0
    Stored s = Owned before (a.live s.0) (stored_at s.1)

    pub submit-Stored :
        (f : F) (x : X) (s : a.Heap × ℕ × List (Entry F X))
        → Stored s
        → Stored (submit (staging_array a g) f x s).0
    unfolding submit
    submit-Stored f x s v = push-Owned s.0 s.1 (length s.2) v

    submit_rounds-Stored :
        (f : F) (xs : ℕ → X) (n i : ℕ) (s : a.Heap × ℕ × List (Entry F X))
        → Stored s
        → Stored (submit_rounds (staging_array a g) f xs n i s).0
    unfolding submit_rounds
    submit_rounds-Stored f xs zero i s v = v
    submit_rounds-Stored f xs (suc n) i s v =
        let r = submit (staging_array a g) f (xs i) s in
        elim (Bool-cases r.1) [
          | inl ok ↦ rw ok (submit_rounds-Stored f xs n (i + 1) r.0 (submit-Stored f (xs i) s v))
          | inr ended ↦ rw ended (submit-Stored f (xs i) s v)
        ]

    pub submit_batch-Stored :
        (f : F) (xs : ℕ → X) (n : ℕ) (s : a.Heap × ℕ × List (Entry F X))
        → Stored s
        → Stored (submit_batch (staging_array a g) f xs n s).0
    unfolding submit_batch
    submit_batch-Stored f xs n s v = elim (Bool-cases (n == 0)) [
      | inl empty ↦ rw empty v
      | inr given ↦ rw given (submit_rounds-Stored f xs n 0 s v)
    ]
