-- ===== src/Allocator.antt =====
-- The pool allocator of bc-allocators, which is not part of the repository: an interface, with the
-- behaviour that bc-concurrency relies on as laws.
pub mod Bump
use bc_concurrency.Base.{ℕ, ◌≡◌, Bool, true, false, Option, none, some, update}

-- `allocate h n` is bc_allocators_pool_allocate: `none` where it returns false, else the address
-- that it stores. `live h p` says that the block at `p` has been handed out and not freed.
pub record Allocator : Type 1 where
  pub Heap : Type 0
  pub live : Heap → ℕ → Bool
  pub allocate : Heap → ℕ → Heap × Option ℕ
  pub free : Heap → ℕ → Heap

pub record IsAllocator (a : Allocator) : Type 0 where
  pub allocate_fresh : (h : a.Heap) (n p : ℕ) → (a.allocate h n).1 ≡ some p → a.live h p ≡ false
  pub allocate_live :
      (h : a.Heap) (n p q : ℕ)
      → (a.allocate h n).1 ≡ some p
      → a.live (a.allocate h n).0 q ≡ update (a.live h) p true q
  pub allocate_none :
      (h : a.Heap) (n q : ℕ) → (a.allocate h n).1 ≡ none → a.live (a.allocate h n).0 q ≡ a.live h q
  pub free_live : (h : a.Heap) (p q : ℕ) → a.live (a.free h p) q ≡ update (a.live h) p false q
