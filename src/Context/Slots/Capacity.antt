-- ===== src/Context/Slots/Capacity.antt =====
-- A registration leaves the dispatch array alone.
use bc_concurrency.Base.{
  ℕ, zero, suc, ◌+◌, ◌≡◌, ◌∙◌, ap, refl, Option, none, some, Bool-cases, inl, inr, arith,
}
use bc_concurrency.Allocator.{Allocator}
use bc_concurrency.Context.{Context, Machine}
use bc_concurrency.Context.Slots.{
  SlotConfig, set_slot, got_configs, grow_configs, got_data, got_slots, slot_round, slot_loop,
  drop_slot, fail_slots, after_slots, with_configs, register_slot,
}

module _ (a : Allocator) (size : ℕ) where
  got_data-capacity :
      (config : SlotConfig) (i : ℕ) (c : Context) (m : Machine a) (block : Option ℕ)
      → (got_data a size config i c m block).1.dispatch_capacity ≡ c.dispatch_capacity
  unfolding got_data set_slot
  got_data-capacity config i c m none = refl
  got_data-capacity config i c m (some p) = refl

  got_slots-capacity :
      (config : SlotConfig) (i : ℕ) (c : Context) (m : Machine a) (block : Option ℕ)
      → (got_slots a size config i c m block).1.dispatch_capacity ≡ c.dispatch_capacity
  unfolding got_slots
  got_slots-capacity config i c m none = refl
  got_slots-capacity config i c m (some p) = got_data-capacity config i _ _ _

  slot_loop-capacity :
      (config : SlotConfig) (n i : ℕ) (c : Context) (m : Machine a)
      → (slot_loop a size config n i c m).1.dispatch_capacity ≡ c.dispatch_capacity
  unfolding slot_loop slot_round
  slot_loop-capacity config zero i c m = refl
  slot_loop-capacity config (suc n) i c m =
      let r = slot_round a size config i c m in
      let here_ : r.1.dispatch_capacity ≡ c.dispatch_capacity = got_slots-capacity config i c _ _ in
      elim (Bool-cases r.2) [
        | inl ok ↦ rw ok (slot_loop-capacity config n (i + 1) r.1 r.0 ∙ here_)
        | inr ended ↦ rw ended here_
      ]

  drop_slot-capacity :
      (j : ℕ) (o : Option ℕ) (c : Context) (m : Machine a)
      → (drop_slot a size j o c m).1.dispatch_capacity ≡ c.dispatch_capacity
  unfolding drop_slot set_slot
  drop_slot-capacity j none c m = refl
  drop_slot-capacity j (some p) c m = refl

  fail_slots-capacity :
      (n j : ℕ) (c : Context) (m : Machine a)
      → (fail_slots a size n j c m).1.dispatch_capacity ≡ c.dispatch_capacity
  unfolding fail_slots
  fail_slots-capacity zero j c m = refl
  fail_slots-capacity (suc n) j c m =
      let o = c.slot j c.slot_count in
      fail_slots-capacity n (j + 1) (drop_slot a size j o c m).1 (drop_slot a size j o c m).0
      ∙ drop_slot-capacity j o c m

  after_slots-capacity :
      (r : Machine a × Context × Option ℕ)
      → (after_slots a size r).1.dispatch_capacity ≡ r.1.dispatch_capacity
  unfolding after_slots
  after_slots-capacity (m, c, none) = refl
  after_slots-capacity (m, c, some k) = fail_slots-capacity k 0 c m

  grow_configs-capacity :
      (c : Context) (m : Machine a) {c' : Context}
      → (grow_configs a size c m).1 ≡ some c'
      → c'.dispatch_capacity ≡ c.dispatch_capacity
  unfolding grow_configs got_configs
  grow_configs-capacity c m e = ground arith

  pub register_slot-capacity :
      (config : SlotConfig) (c : Context) (m : Machine a)
      → (register_slot a size config c m).1.dispatch_capacity ≡ c.dispatch_capacity
  unfolding register_slot with_configs
  register_slot-capacity config c m = go (grow_configs a size c m) refl
    where
      go :
          (q : Machine a × Option Context)
          → grow_configs a size c m ≡ q
          → (with_configs a size config c q).1.dispatch_capacity ≡ c.dispatch_capacity
      go (m', none) e = refl
      go (m', some d) e =
          after_slots-capacity _
          ∙ slot_loop-capacity config _ 0 _ m'
          ∙ grow_configs-capacity c m (ap (λ q. q.1) e)
