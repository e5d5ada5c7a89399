-- ===== src/Context/Slots/Shape.antt =====
-- A registration keeps the slots of all workers in step.
use bc_concurrency.Base.{
  ℕ, zero, suc, ◌+◌, ◌^◌, ◌<◌, ◌≤◌, ◌≡◌, ◌≢◌, ◌⊎◌, inl, inr, refl, sym, ap, ◌∙◌, Option, none, some,
  Bool-cases, arith, update, ltb, ◌==◌,
}
use mathlib.Core.Path.{subst}
use bc_concurrency.Base.Words.{u64}
use bc_concurrency.Allocator.{Allocator}
use bc_concurrency.Context.{Context, Machine}
use bc_concurrency.Context.Pointers.{IsSlotted}
use bc_concurrency.Context.Slots.{
  SlotConfig, set_slot, grow_configs, slot_round, slot_loop, drop_slot, fail_slots, after_slots,
  with_configs, register_slot,
}
use bc_concurrency.Context.Slots.Registration.{
  register_slot-Registering, slot_round_lem, slot_loop_lem, fail_slots_lem, grow_configs_lem,
}

module _ (a : Allocator) (config_size : ℕ) where
  -- What the rounds for the workers `i` to `i + n - 1` keep, and the arrays that they leave.
  slot_loop_rest :
      (config : SlotConfig) (n i : ℕ) (c : Context) (m : Machine a) (j s : ℕ)
      → ((k : ℕ) → i ≤ k → k < i + n → 0 < c.slot_count → c.slots k ≢ none)
      → ((k : ℕ) → i ≤ k → k < i + n → c.slot k c.slot_count ≡ none)
      → ((j < i) ⊎ (i + n ≤ j)
          → ((slot_loop a config_size config n i c m).1.slots j ≡ c.slots j)
            × ((slot_loop a config_size config n i c m).1.slot j s ≡ c.slot j s))
        × (c.slots j ≢ none → (slot_loop a config_size config n i c m).1.slots j ≢ none)
        × ((slot_loop a config_size config n i c m).2 ≡ none
            → i ≤ j
            → j < i + n
            → (slot_loop a config_size config n i c m).1.slots j ≢ none)
        × (c.slot_count < s
            → c.slot j s ≡ none
            → (slot_loop a config_size config n i c m).1.slot j s ≡ none)
  unfolding slot_loop
  slot_loop_rest config zero i c m j s arrays free_ =
      (λ o. (refl, refl), λ h. h, λ e lo hi. absurd (omega arith), λ lt e. e)
  slot_loop_rest config (suc n) i c m j s arrays free_ =
      let c' = (slot_round a config_size config i c m).1 in
      let m' = (slot_round a config_size config i c m).0 in
      let round_at = λ (k : ℕ).
        slot_round_lem a config_size config i c m k s (arrays i (omega arith) (omega arith))
          (free_ i (omega arith) (omega arith)) in
      let here_ = round_at j in
      let count = here_.0.0 in
      let ih =
        slot_loop_rest config n (i + 1) c' m' j s
          (λ k lo hi pos. (round_at k).0.5 (arrays k (omega arith) (omega arith) (omega arith)))
          (λ k lo hi.
            ap (c'.slot k) count
            ∙ (round_at k).0.4 (omega arith)
            ∙ free_ k (omega arith) (omega arith)) in
      elim (Bool-cases (slot_round a config_size config i c m).2) [
        | inl ok ↦ rw ok (
          λ o. (
            (ih.0 (omega arith)).0 ∙ (here_.0.6 (omega arith)).0,
            (ih.0 (omega arith)).1 ∙ (here_.0.6 (omega arith)).1,
          ),
          λ h. ih.1 (here_.0.5 h),
          λ e lo hi. elim (Bool-cases (j == i)) [
            | inl same ↦
                let at : i ≡ j = ground arith in ih.1 (λ q. (here_.1 ok).1 (ap c'.slots at ∙ q))
            | inr other ↦ ih.2 e (ground arith) (omega arith)
          ],
          λ lt e. ih.3 (omega (arith, count)) (here_.0.3 lt e),
        )
        | inr ended ↦ rw ended (λ o. here_.0.6 (omega arith), here_.0.5, λ e. cc, here_.0.3)
      ]

  drop_slot_rest :
      (j : ℕ) (o : Option ℕ) (c : Context) (m : Machine a)
      → ((drop_slot a config_size j o c m).1.slots ≡ c.slots)
        × ((drop_slot a config_size j o c m).1.thread_count ≡ c.thread_count)
  unfolding drop_slot set_slot
  drop_slot_rest j none c m = (refl, refl)
  drop_slot_rest j (some p) c m = (refl, refl)

  fail_slots_rest :
      (n j : ℕ) (c : Context) (m : Machine a)
      → ((fail_slots a config_size n j c m).1.slots ≡ c.slots)
        × ((fail_slots a config_size n j c m).1.thread_count ≡ c.thread_count)
  unfolding fail_slots
  fail_slots_rest zero j c m = (refl, refl)
  fail_slots_rest (suc n) j c m =
      let o = c.slot j c.slot_count in
      let c' = (drop_slot a config_size j o c m).1 in
      let (slots, threads) = fail_slots_rest n (j + 1) c' (drop_slot a config_size j o c m).0 in
      let (slots', threads') = drop_slot_rest j o c m in (slots ∙ slots', threads ∙ threads')

  fail_slots-none :
      (n j : ℕ) (c : Context) (m : Machine a) (i s : ℕ)
      → c.slot i s ≡ none
      → (fail_slots a config_size n j c m).1.slot i s ≡ none
  fail_slots-none n j c m i s e = elim (Bool-cases (s == c.slot_count)) [
    | inl same ↦
        let at : s ≡ c.slot_count = ground arith in
        ap ((fail_slots a config_size n j c m).1.slot i) at
        ∙ (fail_slots_lem a config_size n j c m i s).2 (inr (ap (c.slot i) (sym at) ∙ e))
    | inr other ↦ (fail_slots_lem a config_size n j c m i s).1 (ground arith) ∙ e
  ]

  cleared :
      (d : Context) (k j : ℕ)
      → (k ≤ j → d.slot j d.slot_count ≡ none)
      → (0 ≤ j) × (j < 0 + k) ⊎ (d.slot j d.slot_count ≡ none)
  cleared d k j h = elim (Bool-cases (ltb j k)) [
    | inl e ↦ inl (omega arith, ground arith)
    | inr e ↦ inr (h (ground arith))
  ]

  -- What the loop over all workers leaves of worker `j`'s array and its slot `s`.
  abbrev Looped : ℕ → Context → ℕ → ℕ → Context → Option ℕ → Type 0
  Looped n c j s d o =
      (d.slot_count ≡ c.slot_count)
      × (d.thread_count ≡ c.thread_count)
      × (s < c.slot_count → d.slot j s ≡ c.slot j s)
      × (c.slot_count < s → d.slot j s ≡ none)
      × (n < j → (d.slots j ≡ none) × (d.slot j s ≡ none))
      × (j ≤ n → 0 < c.slot_count → d.slots j ≢ none)
      × (o ≡ none → j ≤ n → (d.slots j ≢ none) × (d.slot j c.slot_count ≢ none))
      × ((k : ℕ) → o ≡ some k → k ≤ j → d.slot j c.slot_count ≡ none)

  slot_loop-Looped :
      (config : SlotConfig) (n : ℕ) (c : Context) (m : Machine a) (j s : ℕ)
      → IsSlotted n c
      → Looped n c j s
          (slot_loop a config_size config (suc n) 0 c m).1
          (slot_loop a config_size config (suc n) 0 c m).2
  slot_loop-Looped config n c m j s v =
      let looped =
        slot_loop_lem a config_size config (suc n) 0 c m j s (λ k lo hi. v.arrays k (omega arith))
          (λ k lo hi. v.behind k c.slot_count (omega arith)) in
      let rest =
        slot_loop_rest config (suc n) 0 c m j s (λ k lo hi. v.arrays k (omega arith))
          (λ k lo hi. v.behind k c.slot_count (omega arith)) in
      (
        looped.0,
        looped.1,
        looped.2,
        λ lt. rest.3 lt (v.behind j s (omega arith)),
        λ lt. (
          (rest.0 (omega arith)).0 ∙ (v.above j s lt).0,
          (rest.0 (omega arith)).1 ∙ (v.above j s lt).1,
        ),
        λ le pos. rest.1 (v.arrays j le pos),
        λ e le. (rest.2 e (omega arith) (omega arith), (looped.3 e).1 (omega arith) (omega arith)),
        λ k e le. (looped.4 k e).3 le ∙ v.behind j c.slot_count (omega arith),
      )

  after_slots-IsSlotted :
      (config : SlotConfig) (n : ℕ) (c : Context) (m : Machine a)
      → IsSlotted n c
      → IsSlotted n (after_slots a config_size (slot_loop a config_size config (suc n) 0 c m)).1
  unfolding after_slots
  after_slots-IsSlotted config n c m v =
      go (slot_loop a config_size config (suc n) 0 c m) (λ j s. slot_loop-Looped config n c m j s v)
    where
      go :
          (r : Machine a × Context × Option ℕ)
          → ((j s : ℕ) → Looped n c j s r.1 r.2)
          → IsSlotted n (after_slots a config_size r).1
      go (m', d, none) f = record {
        threads = (f 0 0).1 ∙ v.threads;
        arrays = λ j le pos. ((f j 0).6 refl le).0;
        there = λ j s le lt e. elim (Bool-cases (s == c.slot_count)) [
          | inl same ↦
              let at : c.slot_count ≡ s = ground arith in
              ((f j s).6 refl le).1 (ap (d.slot j) at ∙ e)
          | inr other ↦
              let lt' : s < c.slot_count = ground (arith, (f j s).0) in
              v.there j s le lt' (sym ((f j s).2 lt') ∙ e)
        ];
        behind = λ j s le. (f j s).3 (omega (arith, (f j s).0));
        above = λ j s lt. (f j s).4 lt;
      }
      go (m', d, some k) f =
          let d' = (fail_slots a config_size k 0 d m').1 in
          let (slots, threads) = fail_slots_rest k 0 d m' in
          let swept = λ (j s : ℕ). fail_slots_lem a config_size k 0 d m' j s in
          record {
            threads = threads ∙ (f 0 0).1 ∙ v.threads;
            arrays = λ j le pos e.
                (f j 0).5 le (omega (arith, (f j 0).0, (swept j 0).0))
                  (ap (λ g. g j) (sym slots) ∙ e);
            there = λ j s le lt e.
                let lt' : s < c.slot_count = omega (arith, (f j s).0, (swept j s).0) in
                v.there j s le lt'
                  (sym ((f j s).2 lt') ∙ sym ((swept j s).1 (omega (arith, (f j s).0))) ∙ e);
            behind = λ j s le. elim (Bool-cases (s == d.slot_count)) [
              | inl same ↦
                  let at : s ≡ d.slot_count = ground arith in
                  ap (d'.slot j) at
                  ∙ (swept j s).2
                      (cleared d k j (λ le. ap (d.slot j) (f j s).0 ∙ (f j s).7 k refl le))
              | inr other ↦
                  let ne : s ≢ d.slot_count = ground arith in
                  (swept j s).1 ne ∙ (f j s).3 (ground (arith, (f j s).0, (swept j s).0))
            ];
            above = λ j s lt. (
              ap (λ g. g j) slots ∙ ((f j s).4 lt).0,
              fail_slots-none k 0 d m' j s ((f j s).4 lt).1,
            );
          }

  -- Registered slots stay, for the workers and the main thread alike, whatever a call of
  -- bc_concurrency_register_slot answers.
  pub register_slot-IsSlotted :
      (n : ℕ) (config : SlotConfig) (c : Context) (m : Machine a)
      → n + 1 < 2 ^ 64
      → IsSlotted n c
      → IsSlotted n (register_slot a config_size config c m).1
  unfolding register_slot with_configs
  register_slot-IsSlotted n config c m small v = go (grow_configs a config_size c m) refl
    where
      go :
          (q : Machine a × Option Context)
          → grow_configs a config_size c m ≡ q
          → IsSlotted n (with_configs a config_size config c q).1
      go (m', none) e = v
      go (m', some d) e =
          let (count, threads, slots, slot) =
            grow_configs_lem a config_size c m (ap (λ q. q.1) e) in
          let d' = record d {
            has_destroy = update d.has_destroy d.slot_count config.has_destroy;
          } in
          let all : u64 (d.thread_count + 1) ≡ suc n = omega (arith, threads, v.threads) in
          subst
            (λ k.
              IsSlotted n (after_slots a config_size (slot_loop a config_size config k 0 d' m')).1)
            (sym all)
            (after_slots-IsSlotted config n d' m' (record {
              threads = threads ∙ v.threads;
              arrays = λ j le pos e.
                  v.arrays j le (omega (arith, count)) (ap (λ g. g j) (sym slots) ∙ e);
              there = λ j s le lt e.
                  v.there j s le (omega (arith, count)) (ap (λ g. g j s) (sym slot) ∙ e);
              behind = λ j s le. ap (λ g. g j s) slot ∙ v.behind j s (omega (arith, count));
              above = λ j s lt. (
                ap (λ g. g j) slots ∙ (v.above j s lt).0,
                ap (λ g. g j s) slot ∙ (v.above j s lt).1,
              );
            }))

  -- What a call makes of slot `s` of worker `i`, and of the new slot of that worker.
  abbrev pub Registered : ℕ → ℕ → Context → Machine a × Context × Option ℕ → Type 0
  Registered i s c r =
      (r.1.slot i s ≡ c.slot i s)
      × (((r.2 ≡ some c.slot_count)
            × (r.1.slot_count ≡ c.slot_count + 1)
            × (r.1.slot i c.slot_count ≢ none))
          ⊎ ((r.2 ≡ none) × (r.1.slot_count ≡ c.slot_count) × (r.1.slot i c.slot_count ≡ none)))

  -- For a context with `n` < 2 ^ 64 - 1 workers where each of them and the main thread has the registered
  -- slots and no others: whatever the allocator answers, every slot but the one with the next index
  -- is for every worker as it was, and either the call returns that index, which is then registered, and
  -- every worker and the main thread have the new slot, or it returns false, there are as many slots
  -- as before, and no worker has one more.
  pub register_cases :
      (config : SlotConfig) (c : Context) (m : Machine a) (n i s : ℕ)
      → n + 1 < 2 ^ 64
      → IsSlotted n c
      → i ≤ n
      → s ≢ c.slot_count
      → Registered i s c (register_slot a config_size config c m)
  register_cases config c m n i s small v le ne =
      let (old, next) =
        register_slot-Registering a config_size config c m i s
          (λ k lt. v.arrays k (omega (arith, v.threads)))
          (λ k lt. v.behind k c.slot_count (omega arith)) (omega (arith, v.threads))
          (omega (arith, v.threads)) in
      let shape = register_slot-IsSlotted n config c m small v in
      elim (Bool-cases (ltb s c.slot_count)) [
        | inl lt ↦ (old (ground arith), next)
        | inr ge ↦
            (shape.behind i s (ground (arith, next)) ∙ sym (v.behind i s (ground arith)), next)
      ]
