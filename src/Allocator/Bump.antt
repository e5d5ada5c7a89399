-- ===== src/Allocator/Bump.antt =====
-- An allocator that meets the laws, for concrete runs: addresses count up, and a request above 2 ^ 40
-- bytes is refused.
use bc_concurrency.Base.{
  ℕ, ◌+◌, ◌^◌, ◌≤◌, ◌≡◌, refl, Bool, true, false, Option, none, some, update, arith, leb,
  if◌then◌else◌,
}
use bc_concurrency.Allocator.{Allocator, IsAllocator}

pub record BumpHeap : Type 0 where
  pub next : ℕ
  pub used : ℕ → Bool
  pub above : (p : ℕ) → next ≤ p → used p ≡ false

abbrev pub empty_heap : BumpHeap
empty_heap = record { next = 4096; used = λ _. false; above = λ p h. refl }

pub above_next : (h : BumpHeap) (p : ℕ) → h.next + 1 ≤ p → update h.used h.next true p ≡ false
above_next h p le = ground (arith, h.above p)

abbrev pub bump : BumpHeap → BumpHeap
bump h = record { next = h.next + 1; used = update h.used h.next true; above = above_next h }

pub above_free : (h : BumpHeap) (q p : ℕ) → h.next ≤ p → update h.used q false p ≡ false
above_free h q p le = ground (arith, h.above p)

abbrev pub take_block : BumpHeap → ℕ → BumpHeap × Option ℕ
take_block h n = if leb n (2 ^ 40) then (bump h, some h.next) else (h, none)

abbrev pub give_block : BumpHeap → ℕ → BumpHeap
give_block h p = record { next = h.next; used = update h.used p false; above = above_free h p }

abbrev pub bump_allocator : Allocator
bump_allocator = record {
  Heap = BumpHeap;
  live = λ h. h.used;
  allocate = take_block;
  free = give_block;
}

fresh_law : (h : BumpHeap) (n p : ℕ) → (take_block h n).1 ≡ some p → h.used p ≡ false
fresh_law h n p e = ground (arith, h.above p)

live_law :
    (h : BumpHeap) (n p q : ℕ)
    → (take_block h n).1 ≡ some p
    → (take_block h n).0.used q ≡ update h.used p true q
live_law h n p q e = ground arith

none_law :
    (h : BumpHeap) (n q : ℕ) → (take_block h n).1 ≡ none → (take_block h n).0.used q ≡ h.used q
none_law h n q e = ground arith

pub bump_allocator-IsAllocator : IsAllocator bump_allocator
bump_allocator-IsAllocator = record {
  allocate_fresh = fresh_law;
  allocate_live = live_law;
  allocate_none = none_law;
  free_live = λ h p q. refl;
}
