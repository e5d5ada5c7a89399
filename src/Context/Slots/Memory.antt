-- ===== src/Context/Slots/Memory.antt =====
-- The blocks of the slots: what bc_concurrency_register_slot allocates and frees.
use bc_concurrency.Base.{
  ℕ, zero, suc, ◌+◌, ◌*◌, ◌^◌, ◌<◌, ◌≤◌, ◌≡◌, ◌≢◌, inl, inr, refl, sym, ap, ◌∙◌, false, Bool,
  Option, none, some, Bool-cases, arith, update, ltb, ◌==◌, if◌then◌else◌,
}
use bc_concurrency.Base.Words.{u64}
use bc_concurrency.Allocator.{Allocator, IsAllocator}
use bc_concurrency.Context.{Context, Machine}
use bc_concurrency.Context.Ownership.{
  Key, field, array, slot, scratch, key_eq, key_eq_sound, key_eq_refl, put, Owned, Owned-ext,
  Owned-move, Owned-allocate, Owned-refused, Owned-free,
}
use bc_concurrency.Context.Pointers.{pointers, IsSlotted}
use bc_concurrency.Context.Slots.{
  SlotConfig, slot_initial_capacity, set_slot, copied, release_some, got_configs, grow_configs,
  got_data, got_slots, slot_round, slot_loop, drop_slot, fail_slots, after_slots, with_configs,
  register_slot,
}
use bc_concurrency.Context.Slots.Registration.{copied_lem, Kept, slot_round_lem}

module _ (a : Allocator) (config_size : ℕ) (laws : IsAllocator a) (before : ℕ → Bool) where
  abbrev Holds : Machine a → (Key → Option ℕ) → Type 0
  Holds m f = Owned before (a.live m.heap) f

  -- After an allocation for the place `t`.
  abbrev Taken : a.Heap → (Key → Option ℕ) → Key → Option ℕ → Type 0
  Taken h f t none = Owned before (a.live h) f
  Taken h f t (some p) = Owned before (a.live h) (put f t (some p))

  allocated :
      (h : a.Heap) (n : ℕ) (f : Key → Option ℕ) (t : Key) (block : Option ℕ)
      → (a.allocate h n).1 ≡ block
      → f t ≡ none
      → Owned before (a.live h) f
      → Taken (a.allocate h n).0 f t block
  allocated h n f t none e empty v = Owned-refused a laws before h n f v e
  allocated h n f t (some p) e empty v = Owned-allocate a laws before h n p f t v e empty

  -- A new block takes the place of an old one, which is freed.
  replace :
      (m : Machine a) (f : Key → Option ℕ) (t : Key) (p : ℕ) (o : Option ℕ)
      → f t ≡ o
      → f scratch ≡ none
      → key_eq t scratch ≡ false
      → Holds m (put f scratch (some p))
      → Holds (release_some a config_size o m) (put f t (some p))
  unfolding release_some
  replace m f t p none e empty ne v =
      Owned-ext (put f t (some p))
        (Owned-move scratch t p v refl (ground (arith, key_eq_sound scratch t)))
        (λ u. ground (arith, key_eq_sound scratch u))
  replace m f t p (some q) e empty ne v =
      let freed = put (put f scratch (some p)) t none in
      let v' =
        Owned-free a laws before m.heap q (put f scratch (some p)) t v
          (ground (arith, key_eq_sound scratch t)) in
      Owned-ext {f = put (put freed scratch none) t (some p)} (put f t (some p))
        (Owned-move {f = freed} scratch t p v' (ground arith)
          (ground (arith, key_eq_sound scratch t, key_eq_refl t)))
        (λ u. ground (arith, key_eq_sound scratch u))

  got_data-Owned :
      (config : SlotConfig) (i : ℕ) (c : Context) (m : Machine a) (block : Option ℕ)
      → c.slot i c.slot_count ≡ none
      → Taken m.heap (pointers c) (slot i c.slot_count) block
      → Holds
          (got_data a config_size config i c m block).0
          (pointers (got_data a config_size config i c m block).1)
  unfolding got_data set_slot
  got_data-Owned config i c m none empty v =
      Owned-ext (pointers (set_slot i c.slot_count none c)) v (λ t. unset t)
    where
      unset : (t : Key) → pointers c t ≡ pointers (set_slot i c.slot_count none c) t
      unset (field k) = refl
      unset (array j) = refl
      unset (slot j s) = ground arith
      unset scratch = refl
  got_data-Owned config i c m (some p) empty v =
      Owned-ext (pointers (set_slot i c.slot_count (some p) c)) v (λ t. changed t)
    where
      changed :
          (t : Key)
          → put (pointers c) (slot i c.slot_count) (some p) t
            ≡ pointers (set_slot i c.slot_count (some p) c) t
      changed (field k) = refl
      changed (array j) = refl
      changed (slot j s) = ground arith
      changed scratch = refl

  got_slots-Owned :
      (config : SlotConfig) (i : ℕ) (c : Context) (m : Machine a) (block : Option ℕ)
      → (0 < c.slot_count → c.slots i ≢ none)
      → ((s : ℕ) → c.slot_count ≤ s → c.slot i s ≡ none)
      → Taken m.heap (pointers c) scratch block
      → Holds
          (got_slots a config_size config i c m block).0
          (pointers (got_slots a config_size config i c m block).1)
  unfolding got_slots
  got_slots-Owned config i c m none arrays behind v = v
  got_slots-Owned config i c m (some p) arrays behind v =
      got_data-Owned config i c' (record freed { heap = (a.allocate freed.heap config.size).0 })
        (a.allocate freed.heap config.size).1 (ground (arith, (old c.slot_count).1))
        (allocated freed.heap config.size (pointers c') (slot i c.slot_count)
          (a.allocate freed.heap config.size).1 refl (ground (arith, (old c.slot_count).1))
          (Owned-ext {f = put (pointers c) (array i) (some p)} (pointers c')
            (replace m (pointers c) (array i) p (c.slots i) refl refl refl v) (λ t. moved t)))
    where
      freed : Machine a
      freed = release_some a config_size (c.slots i) m

      c' : Context
      c' = record c {
        slots = update c.slots i (some p);
        slot = update c.slot i (copied (c.slots i) c.slot_count (c.slot i));
      }

      old :
          (s : ℕ)
          → (s < c.slot_count → copied (c.slots i) c.slot_count (c.slot i) s ≡ c.slot i s)
            × (c.slot_count ≤ s → copied (c.slots i) c.slot_count (c.slot i) s ≡ none)
      old s = copied_lem (c.slots i) c.slot_count (c.slot i) s arrays

      moved : (t : Key) → put (pointers c) (array i) (some p) t ≡ pointers c' t
      moved (field k) = refl
      moved (array j) = refl
      moved (slot j s) = ground (arith, old s, behind s)
      moved scratch = refl

  slot_round-Owned :
      (config : SlotConfig) (i : ℕ) (c : Context) (m : Machine a)
      → (0 < c.slot_count → c.slots i ≢ none)
      → ((s : ℕ) → c.slot_count ≤ s → c.slot i s ≡ none)
      → Holds m (pointers c)
      → Holds
          (slot_round a config_size config i c m).0
          (pointers (slot_round a config_size config i c m).1)
  unfolding slot_round
  slot_round-Owned config i c m arrays behind v =
      let size = u64 (u64 (c.slot_count + 1) * 8) in
      got_slots-Owned config i c (record m { heap = (a.allocate m.heap size).0 })
        (a.allocate m.heap size).1 arrays behind
        (allocated m.heap size (pointers c) scratch (a.allocate m.heap size).1 refl refl v)

  slot_loop-Owned :
      (config : SlotConfig) (n i : ℕ) (c : Context) (m : Machine a)
      → ((k : ℕ) → i ≤ k → k < i + n → 0 < c.slot_count → c.slots k ≢ none)
      → ((k s : ℕ) → i ≤ k → k < i + n → c.slot_count ≤ s → c.slot k s ≡ none)
      → Holds m (pointers c)
      → Holds
          (slot_loop a config_size config n i c m).0
          (pointers (slot_loop a config_size config n i c m).1)
  unfolding slot_loop
  slot_loop-Owned config zero i c m arrays behind v = v
  slot_loop-Owned config (suc n) i c m arrays behind v =
      elim (Bool-cases (slot_round a config_size config i c m).2) [
        | inl ok ↦ rw ok (slot_loop-Owned config n (i + 1) c' m' arrays' behind' round)
        | inr ended ↦ rw ended round
      ]
    where
      c' : Context
      c' = (slot_round a config_size config i c m).1

      m' : Machine a
      m' = (slot_round a config_size config i c m).0

      round : Holds m' (pointers c')
      round =
          slot_round-Owned config i c m (arrays i (omega arith) (omega arith))
            (λ s. behind i s (omega arith) (omega arith)) v

      kept : (k s : ℕ) → Kept a config_size i k s c c'
      kept k s =
          (slot_round_lem a config_size config i c m k s (arrays i (omega arith) (omega arith))
            (behind i c.slot_count (omega arith) (omega arith) (omega arith))).0

      arrays' : (k : ℕ) → i + 1 ≤ k → k < i + 1 + n → 0 < c'.slot_count → c'.slots k ≢ none
      arrays' k lo hi pos =
          (kept k 0).5 (arrays k (omega arith) (omega arith) (omega (arith, (kept k 0).0)))

      behind' : (k s : ℕ) → i + 1 ≤ k → k < i + 1 + n → c'.slot_count ≤ s → c'.slot k s ≡ none
      behind' k s lo hi le = elim (Bool-cases (s == c.slot_count)) [
        | inl same ↦
            ap (c'.slot k) (ground arith)
            ∙ (kept k s).4 (omega arith)
            ∙ behind k c.slot_count (omega arith) (omega arith) (omega arith)
        | inr other ↦
            let lt : c.slot_count < s = ground (arith, (kept k s).0) in
            (kept k s).3 lt (behind k s (omega arith) (omega arith) (omega arith))
      ]

  drop_slot-Owned :
      (j : ℕ) (o : Option ℕ) (c : Context) (m : Machine a)
      → c.slot j c.slot_count ≡ o
      → Holds m (pointers c)
      → Holds (drop_slot a config_size j o c m).0 (pointers (drop_slot a config_size j o c m).1)
  unfolding drop_slot set_slot
  drop_slot-Owned j none c m e v = v
  drop_slot-Owned j (some p) c m e v =
      Owned-ext (pointers (set_slot j c.slot_count none c))
        (Owned-free a laws before m.heap p (pointers c) (slot j c.slot_count) v e) (λ t. dropped t)
    where
      dropped :
          (t : Key)
          → put (pointers c) (slot j c.slot_count) none t
            ≡ pointers (set_slot j c.slot_count none c) t
      dropped (field k) = refl
      dropped (array k) = refl
      dropped (slot k s) = ground arith
      dropped scratch = refl

  fail_slots-Owned :
      (n j : ℕ) (c : Context) (m : Machine a)
      → Holds m (pointers c)
      → Holds (fail_slots a config_size n j c m).0 (pointers (fail_slots a config_size n j c m).1)
  unfolding fail_slots
  fail_slots-Owned zero j c m v = v
  fail_slots-Owned (suc n) j c m v =
      let o = c.slot j c.slot_count in
      fail_slots-Owned n (j + 1) (drop_slot a config_size j o c m).1
        (drop_slot a config_size j o c m).0 (drop_slot-Owned j o c m refl v)

  after_slots-Owned :
      (r : Machine a × Context × Option ℕ)
      → Holds r.0 (pointers r.1)
      → Holds (after_slots a config_size r).0 (pointers (after_slots a config_size r).1)
  unfolding after_slots
  after_slots-Owned (m, c, none) v = v
  after_slots-Owned (m, c, some completed) v = fail_slots-Owned completed 0 c m v

  -- What `grow_configs` answers for the context `c`.
  abbrev Grown : Context → Machine a × Option Context → Type 0
  Grown c (m, none) = Holds m (pointers c)
  Grown c (m, some c') =
      Holds m (pointers c')
      × (c'.slot_count ≡ c.slot_count)
      × (c'.thread_count ≡ c.thread_count)
      × (c'.slots ≡ c.slots)
      × (c'.slot ≡ c.slot)

  got_configs-Grown :
      (c : Context) (capacity : ℕ) (m : Machine a) (block : Option ℕ)
      → Taken m.heap (pointers c) scratch block
      → Grown c (got_configs a config_size c capacity m block)
  unfolding got_configs
  got_configs-Grown c capacity m none v = v
  got_configs-Grown c capacity m (some p) v = (
    Owned-ext {f = put (pointers c) (field 6) (some p)}
        (pointers (record c { slot_configs = some p; slot_capacity = capacity }))
        (replace m (pointers c) (field 6) p c.slot_configs refl refl refl v) (λ t. changed t),
    refl,
    refl,
    refl,
    refl,
  )
    where
      changed :
          (t : Key)
          → put (pointers c) (field 6) (some p) t
            ≡ pointers (record c { slot_configs = some p; slot_capacity = capacity }) t
      changed (field k) = ground arith
      changed (array j) = refl
      changed (slot j s) = refl
      changed scratch = refl

  grow_configs-Grown :
      (c : Context) (m : Machine a)
      → Holds m (pointers c)
      → Grown c (grow_configs a config_size c m)
  unfolding grow_configs
  grow_configs-Grown c m v = elim (Bool-cases (ltb c.slot_count c.slot_capacity)) [
    | inl room ↦ rw room (v, refl, refl, refl, refl)
    | inr full ↦ rw full (
        got_configs-Grown c capacity (record m { heap = (a.allocate m.heap size).0 })
          (a.allocate m.heap size).1
          (allocated m.heap size (pointers c) scratch (a.allocate m.heap size).1 refl refl v))
  ]
    where
      capacity : ℕ
      capacity = if c.slot_capacity == 0 then slot_initial_capacity else u64 (c.slot_capacity * 2)

      size : ℕ
      size = u64 (capacity * config_size)

  -- Every block of the heap that was not there before belongs to one pointer of the context.
  pub register_slot-Owned :
      (n : ℕ) (config : SlotConfig) (c : Context) (m : Machine a)
      → n + 1 < 2 ^ 64
      → IsSlotted n c
      → Holds m (pointers c)
      → Holds
          (register_slot a config_size config c m).0
          (pointers (register_slot a config_size config c m).1)
  unfolding register_slot with_configs
  register_slot-Owned n config c m small shape v =
      go (grow_configs a config_size c m) (grow_configs-Grown c m v)
    where
      go :
          (q : Machine a × Option Context)
          → Grown c q
          → Holds
              (with_configs a config_size config c q).0
              (pointers (with_configs a config_size config c q).1)
      go (m', none) g = g
      go (m', some d) (owned, count, threads, slots, data_) =
          let d' = record d {
            has_destroy = update d.has_destroy d.slot_count config.has_destroy;
          } in
          after_slots-Owned (slot_loop a config_size config (u64 (d.thread_count + 1)) 0 d' m') (
            slot_loop-Owned config (u64 (d.thread_count + 1)) 0 d' m'
              (λ k lo hi pos e.
                shape.arrays k (omega (arith, threads, shape.threads)) (omega (arith, count))
                  (ap (λ f. f k) (sym slots) ∙ e))
              (λ k s lo hi le. ap (λ f. f k s) data_ ∙ shape.behind k s (omega (arith, count)))
              owned)
