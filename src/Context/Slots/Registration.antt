-- ===== src/Context/Slots/Registration.antt =====
-- What bc_concurrency_register_slot does to the slots of all workers.
use bc_concurrency.Base.{
  ℕ, zero, suc, ◌+◌, ◌*◌, ◌^◌, ◌<◌, ◌≤◌, ◌≡◌, ◌≢◌, ◌⊎◌, inl, inr, refl, sym, ap, ◌∙◌, true, false,
  Option, none, some, Bool-cases, arith, update,
}
use mathlib.Core.Path.{subst}
use bc_concurrency.Base.Words.{u64}
use bc_concurrency.Allocator.{Allocator}
use bc_concurrency.Context.{Context, Machine}
use bc_concurrency.Context.Slots.{
  SlotConfig, set_slot, copied, release_some, got_configs, grow_configs, got_data, got_slots,
  slot_round, slot_loop, drop_slot, fail_slots, after_slots, with_configs, register_slot,
}

pub copied_lem :
    (o : Option ℕ) (count : ℕ) (old : ℕ → Option ℕ) (s : ℕ)
    → (0 < count → o ≢ none)
    → (s < count → copied o count old s ≡ old s) × (count ≤ s → copied o count old s ≡ none)
unfolding copied
copied_lem none count old s h = ground arith
copied_lem (some p) count old s h = ground arith

some-inj : {x y : ℕ} → some x ≡ some y → x ≡ y
some-inj e = ground arith

module _ (a : Allocator) (config_size : ℕ) where
  -- What a round for worker `i` does to worker `j`'s slot `s`.
  abbrev pub Kept : ℕ → ℕ → ℕ → Context → Context → Type 0
  Kept i j s c c' =
      (c'.slot_count ≡ c.slot_count)
      × (c'.thread_count ≡ c.thread_count)
      × (s < c.slot_count → c'.slot j s ≡ c.slot j s)
      × (c.slot_count < s → c.slot j s ≡ none → c'.slot j s ≡ none)
      × (j ≢ i → c'.slot j c.slot_count ≡ c.slot j c.slot_count)
      × (c.slots j ≢ none → c'.slots j ≢ none)
      × (j ≢ i → (c'.slots j ≡ c.slots j) × (c'.slot j s ≡ c.slot j s))

  got_data_lem :
      (config : SlotConfig) (i : ℕ) (c : Context) (m : Machine a) (block : Option ℕ) (j s : ℕ)
      → Kept i j s c (got_data a config_size config i c m block).1
        × ((got_data a config_size config i c m block).2 ≡ true
            → (got_data a config_size config i c m block).1.slot i c.slot_count ≢ none)
        × ((got_data a config_size config i c m block).2 ≡ false
            → (got_data a config_size config i c m block).1.slot i c.slot_count ≡ none)
        × ((got_data a config_size config i c m block).1.slots ≡ c.slots)
  unfolding got_data set_slot
  got_data_lem config i c m none j s = ground arith
  got_data_lem config i c m (some p) j s = ground arith

  got_slots_lem :
      (config : SlotConfig) (i : ℕ) (c : Context) (m : Machine a) (block : Option ℕ) (j s : ℕ)
      → (0 < c.slot_count → c.slots i ≢ none)
      → c.slot i c.slot_count ≡ none
      → Kept i j s c (got_slots a config_size config i c m block).1
        × ((got_slots a config_size config i c m block).2 ≡ true
            → ((got_slots a config_size config i c m block).1.slot i c.slot_count ≢ none)
              × ((got_slots a config_size config i c m block).1.slots i ≢ none))
        × ((got_slots a config_size config i c m block).2 ≡ false
            → (got_slots a config_size config i c m block).1.slot i c.slot_count ≡ none)
  unfolding got_slots copied
  got_slots_lem config i c m none j s arrays free_ = ground arith
  got_slots_lem config i c m (some p) j s arrays free_ =
      let freed = release_some a config_size (c.slots i) m in
      let c' = record c {
        slots = update c.slots i (some p);
        slot = update c.slot i (copied (c.slots i) c.slot_count (c.slot i));
      } in
      let h = (a.allocate freed.heap config.size).0 in
      let block = (a.allocate freed.heap config.size).1 in
      let lem = got_data_lem config i c' (record freed { heap = h }) block j s in
      let old = λ (t : ℕ). copied_lem (c.slots i) c.slot_count (c.slot i) t arrays in
      let away = got_data_lem config i c' (record freed { heap = h }) block i s in
      (
        (
          lem.0.0,
          lem.0.1,
          λ lt. lem.0.2 lt ∙ ground (arith, (old s).0),
          λ lt e. lem.0.3 lt (ground (arith, (old s).1)),
          λ ne. lem.0.4 ne ∙ ground arith,
          λ e z. lem.0.5 (λ q. ground arith) z,
          λ ne. ((lem.0.6 ne).0 ∙ ground arith, (lem.0.6 ne).1 ∙ ground arith),
        ),
        λ e. (lem.1 e, λ z. away.0.5 (λ q. ground arith) z),
        lem.2,
      )

  pub slot_round_lem :
      (config : SlotConfig) (i : ℕ) (c : Context) (m : Machine a) (j s : ℕ)
      → (0 < c.slot_count → c.slots i ≢ none)
      → c.slot i c.slot_count ≡ none
      → Kept i j s c (slot_round a config_size config i c m).1
        × ((slot_round a config_size config i c m).2 ≡ true
            → ((slot_round a config_size config i c m).1.slot i c.slot_count ≢ none)
              × ((slot_round a config_size config i c m).1.slots i ≢ none))
        × ((slot_round a config_size config i c m).2 ≡ false
            → (slot_round a config_size config i c m).1.slot i c.slot_count ≡ none)
  unfolding slot_round
  slot_round_lem config i c m j s arrays free_ =
      let size = u64 (u64 (c.slot_count + 1) * 8) in
      got_slots_lem config i c (record m { heap = (a.allocate m.heap size).0 })
        (a.allocate m.heap size).1 j s arrays free_

  -- The rounds for workers `i` to `i + n - 1`.
  pub slot_loop_lem :
      (config : SlotConfig) (n i : ℕ) (c : Context) (m : Machine a) (j s : ℕ)
      → ((k : ℕ) → i ≤ k → k < i + n → 0 < c.slot_count → c.slots k ≢ none)
      → ((k : ℕ) → i ≤ k → k < i + n → c.slot k c.slot_count ≡ none)
      → ((slot_loop a config_size config n i c m).1.slot_count ≡ c.slot_count)
        × ((slot_loop a config_size config n i c m).1.thread_count ≡ c.thread_count)
        × (s < c.slot_count → (slot_loop a config_size config n i c m).1.slot j s ≡ c.slot j s)
        × ((slot_loop a config_size config n i c m).2 ≡ none
            → (j < i
                → (slot_loop a config_size config n i c m).1.slot j c.slot_count
                  ≡ c.slot j c.slot_count)
              × (i ≤ j
                  → j < i + n
                  → (slot_loop a config_size config n i c m).1.slot j c.slot_count ≢ none))
        × ((k : ℕ)
            → (slot_loop a config_size config n i c m).2 ≡ some k
            → (i ≤ k)
              × (k < i + n)
              × (j < i
                  → (slot_loop a config_size config n i c m).1.slot j c.slot_count
                    ≡ c.slot j c.slot_count)
              × (k ≤ j
                  → (slot_loop a config_size config n i c m).1.slot j c.slot_count
                    ≡ c.slot j c.slot_count))
  unfolding slot_loop
  slot_loop_lem config zero i c m j s arrays free_ = ground arith
  slot_loop_lem config (suc n) i c m j s arrays free_ =
      let c' = (slot_round a config_size config i c m).1 in
      let m' = (slot_round a config_size config i c m).0 in
      let round_at = λ (k : ℕ).
        slot_round_lem config i c m k s (arrays i (omega arith) (omega arith))
          (free_ i (omega arith) (omega arith)) in
      let here_ = round_at j in
      let count = here_.0.0 in
      let ih =
        slot_loop_lem config n (i + 1) c' m' j s
          (λ k lo hi pos. (round_at k).0.5 (arrays k (omega arith) (omega arith) (omega arith)))
          (λ k lo hi.
            ap (c'.slot k) count
            ∙ (round_at k).0.4 (omega arith)
            ∙ free_ k (omega arith) (omega arith)) in
      let r = slot_loop a config_size config n (i + 1) c' m' in
      let after = ap (r.1.slot j) count in
      let at = ap (c'.slot j) count in
      elim (Bool-cases (slot_round a config_size config i c m).2) [
        | inl ok ↦ rw ok (
          ih.0 ∙ count,
          ih.1 ∙ here_.0.1,
          λ lt. ih.2 (omega (arith, count)) ∙ here_.0.2 lt,
          λ e. (
            λ lt. sym after ∙ (ih.3 e).0 (omega arith) ∙ at ∙ here_.0.4 (omega arith),
            λ lo hi. ground (arith, ih.3 e, after, at, here_.1 ok),
          ),
          λ k e. (
            omega (arith, (ih.4 k e).0),
            omega (arith, (ih.4 k e).1),
            λ lt. sym after ∙ (ih.4 k e).2 (omega arith) ∙ at ∙ here_.0.4 (omega arith),
            λ le. sym after ∙ (ih.4 k e).3 le ∙ at ∙ here_.0.4 (omega (arith, (ih.4 k e).0)),
          ),
        )
        | inr ended ↦ rw ended (
          count,
          here_.0.1,
          here_.0.2,
          λ e. cc,
          λ k e.
              let same = some-inj e in
              (
                omega arith,
                omega arith,
                λ lt. here_.0.4 (omega arith),
                λ le. ground (arith, here_.0.4, here_.2 ended, free_ i (omega arith) (omega arith)),
              ),
        )
      ]

  drop_slot_lem :
      (j : ℕ) (o : Option ℕ) (c : Context) (m : Machine a) (i s : ℕ)
      → c.slot j c.slot_count ≡ o
      → ((drop_slot a config_size j o c m).1.slot_count ≡ c.slot_count)
        × (s ≢ c.slot_count → (drop_slot a config_size j o c m).1.slot i s ≡ c.slot i s)
        × (i ≢ j → (drop_slot a config_size j o c m).1.slot i c.slot_count ≡ c.slot i c.slot_count)
        × (i ≡ j → (drop_slot a config_size j o c m).1.slot i c.slot_count ≡ none)
        × (c.slot i c.slot_count ≡ none
            → (drop_slot a config_size j o c m).1.slot i c.slot_count ≡ none)
  unfolding drop_slot set_slot
  drop_slot_lem j none c m i s e = ground arith
  drop_slot_lem j (some p) c m i s e = ground arith

  pub fail_slots_lem :
      (n j : ℕ) (c : Context) (m : Machine a) (i s : ℕ)
      → ((fail_slots a config_size n j c m).1.slot_count ≡ c.slot_count)
        × (s ≢ c.slot_count → (fail_slots a config_size n j c m).1.slot i s ≡ c.slot i s)
        × ((j ≤ i) × (i < j + n) ⊎ (c.slot i c.slot_count ≡ none)
            → (fail_slots a config_size n j c m).1.slot i c.slot_count ≡ none)
  unfolding fail_slots
  fail_slots_lem zero j c m i s = ground arith
  fail_slots_lem (suc n) j c m i s =
      let o = c.slot j c.slot_count in
      let c' = (drop_slot a config_size j o c m).1 in
      let m' = (drop_slot a config_size j o c m).0 in
      let dropped = drop_slot_lem j o c m i s refl in
      let count = dropped.0 in
      let ih = fail_slots_lem n (j + 1) c' m' i s in
      (
        ih.0 ∙ count,
        λ ne. ih.1 (λ e. ne (e ∙ count)) ∙ dropped.1 ne,
        λ h.
            ap ((fail_slots a config_size n (j + 1) c' m').1.slot i) (sym count)
            ∙ ih.2 (ground (arith, ap (c'.slot i) count, dropped.2, dropped.3, dropped.4)),
      )

  pub grow_configs_lem :
      (c : Context) (m : Machine a) {c' : Context}
      → (grow_configs a config_size c m).1 ≡ some c'
      → (c'.slot_count ≡ c.slot_count)
        × (c'.thread_count ≡ c.thread_count)
        × (c'.slots ≡ c.slots)
        × (c'.slot ≡ c.slot)
  unfolding grow_configs got_configs
  grow_configs_lem c m e = ground arith

  -- The slots that were there are there; the new one is there for every worker, or for none.
  abbrev pub Registering : ℕ → ℕ → ℕ → (ℕ → ℕ → Option ℕ) → Machine a × Context × Option ℕ → Type 0
  Registering i s count slot r =
      (s < count → r.1.slot i s ≡ slot i s)
      × (((r.2 ≡ some count) × (r.1.slot_count ≡ count + 1) × (r.1.slot i count ≢ none))
          ⊎ ((r.2 ≡ none) × (r.1.slot_count ≡ count) × (r.1.slot i count ≡ none)))

  after_slots-Registering :
      (config : SlotConfig) (n : ℕ) (c : Context) (m : Machine a) (i s : ℕ)
      → ((k : ℕ) → k < n → 0 < c.slot_count → c.slots k ≢ none)
      → ((k : ℕ) → k < n → c.slot k c.slot_count ≡ none)
      → i < n
      → Registering i s c.slot_count c.slot
          (after_slots a config_size (slot_loop a config_size config n 0 c m))
  unfolding after_slots
  after_slots-Registering config n c m i s arrays free_ li =
      go (slot_loop a config_size config n 0 c m) refl
    where
      go :
          (r : Machine a × Context × Option ℕ)
          → slot_loop a config_size config n 0 c m ≡ r
          → Registering i s c.slot_count c.slot (after_slots a config_size r)
      go (m', d, none) e =
          let looped =
            slot_loop_lem config n 0 c m i s (λ k lo hi pos. arrays k (omega arith) pos)
              (λ k lo hi. free_ k (omega arith)) in
          let count = sym (ap (λ r. r.1.slot_count) e) ∙ looped.0 in
          (
            λ ls. sym (ap (λ r. r.1.slot i s) e) ∙ looped.2 ls,
            inl (
              ap some count,
              ap (λ k. k + 1) count,
              λ z.
                  (looped.3 (ap (λ r. r.2) e)).1 (omega arith) (omega arith)
                    (ap (λ r. r.1.slot i c.slot_count) e ∙ z),
            ),
          )
      go (m', d, some k) e =
          let looped =
            slot_loop_lem config n 0 c m i s (λ h lo hi pos. arrays h (omega arith) pos)
              (λ h lo hi. free_ h (omega arith)) in
          let count = sym (ap (λ r. r.1.slot_count) e) ∙ looped.0 in
          let failed = looped.4 k (ap (λ r. r.2) e) in
          let old = sym (ap (λ r. r.1.slot i c.slot_count) e) in
          let swept = fail_slots_lem k 0 d m' i s in
          (
            λ ls. swept.1 (omega (arith, count)) ∙ sym (ap (λ r. r.1.slot i s) e) ∙ looped.2 ls,
            inr (
              refl,
              swept.0 ∙ count,
              ap ((fail_slots a config_size k 0 d m').1.slot i) (sym count)
                  ∙ swept.2 (ground (arith, failed.3, old, free_ i li, ap (d.slot i) count)),
            ),
          )

  pub register_slot-Registering :
      (config : SlotConfig) (c : Context) (m : Machine a) (i s : ℕ)
      → ((k : ℕ) → k ≤ c.thread_count → 0 < c.slot_count → c.slots k ≢ none)
      → ((k : ℕ) → k ≤ c.thread_count → c.slot k c.slot_count ≡ none)
      → c.thread_count + 1 < 2 ^ 64
      → i ≤ c.thread_count
      → Registering i s c.slot_count c.slot (register_slot a config_size config c m)
  unfolding register_slot with_configs
  register_slot-Registering config c m i s arrays free_ small li =
      go (grow_configs a config_size c m) refl
    where
      go :
          (q : Machine a × Option Context)
          → grow_configs a config_size c m ≡ q
          → Registering i s c.slot_count c.slot (with_configs a config_size config c q)
      go (m', none) e = (λ ls. refl, inr (refl, refl, free_ i li))
      go (m', some d) e =
          let (count, threads, slots, slot) = grow_configs_lem c m (ap (λ q. q.1) e) in
          let d' = record d {
            has_destroy = update d.has_destroy d.slot_count config.has_destroy;
          } in
          let n = u64 (d.thread_count + 1) in
          let v =
            after_slots-Registering config n d' m' i s
              (λ k lt pos z.
                arrays k (omega (arith, threads)) (omega (arith, count))
                  (ap (λ f. f k) (sym slots) ∙ z))
              (λ k lt.
                ap (λ f. f k d.slot_count) slot
                ∙ ap (c.slot k) count
                ∙ free_ k (omega (arith, threads)))
              (omega (arith, threads)) in
          let r = after_slots a config_size (slot_loop a config_size config n 0 d' m') in
          subst (λ x. Registering i s x c.slot r) count
            (subst (λ f. Registering i s d.slot_count f r) slot v)
