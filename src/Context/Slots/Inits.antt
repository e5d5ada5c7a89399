-- ===== src/Context/Slots/Inits.antt =====
-- The calls of a slot's `init`, and what else a registration leaves alone.
use bc_concurrency.Base.{
  ℕ, zero, suc, ◌+◌, ◌^◌, ◌<◌, ◌≡◌, ◌≢◌, inl, inr, refl, sym, ap, ap₂, ◌∙◌, Bool, ◌&&◌, Option,
  none, some, Bool-cases, [], ◌∷◌, arith, update, ltb, leb, ◌==◌, if◌then◌else◌,
}
use mathlib.Core.Path.{subst}
use bc_concurrency.Base.Words.{u64}
use bc_concurrency.Allocator.{Allocator}
use bc_concurrency.Context.{Context, Machine}
use bc_concurrency.Context.Callbacks.{times, times-append}
use bc_concurrency.Context.Slots.{
  SlotConfig, set_slot, release_some, got_configs, grow_configs, got_data, got_slots, slot_round,
  slot_loop, drop_slot, fail_slots, after_slots, with_configs, register_slot,
}
use bc_concurrency.Context.Slots.Registration.{grow_configs_lem}

module _ (a : Allocator) (config_size : ℕ) where
  abbrev pub Quiet : Machine a → Machine a → Type 0
  Quiet m m' = (m'.memories ≡ m.memories) × (m'.locks ≡ m.locks) × (m'.destroyed ≡ m.destroyed)

  Quiet-trans : (m m' m'' : Machine a) → Quiet m m' → Quiet m' m'' → Quiet m m''
  Quiet-trans m m' m'' v w = (w.0 ∙ v.0, w.1 ∙ v.1, w.2 ∙ v.2)

  release_some_lem :
      (o : Option ℕ) (m : Machine a)
      → Quiet m (release_some a config_size o m)
        × ((release_some a config_size o m).initialised ≡ m.initialised)
  unfolding release_some
  release_some_lem none m = ((refl, refl, refl), refl)
  release_some_lem (some p) m = ((refl, refl, refl), refl)

  -- A round for worker `i`, with what it does to the calls of slot `t` of worker `j`.
  abbrev Called : SlotConfig → ℕ → Context → Machine a → ℕ → ℕ → Machine a × Context × Bool → Type 0
  Called config i c m t j r =
      Quiet m r.0
      × (r.1.slot_count ≡ c.slot_count)
      × (r.1.has_destroy ≡ c.has_destroy)
      × (times t j r.0.initialised
          ≡ times t j m.initialised
            + (if r.2 && config.has_init && c.slot_count == t && i == j then 1 else 0))

  got_data-Called :
      (config : SlotConfig) (i : ℕ) (c : Context) (m : Machine a) (block : Option ℕ) (t j : ℕ)
      → Called config i c m t j (got_data a config_size config i c m block)
  unfolding got_data set_slot times
  got_data-Called config i c m none t j = ((refl, refl, refl), refl, refl, omega arith)
  got_data-Called config i c m (some p) t j = (
    (refl, refl, refl),
    refl,
    refl,
    ground (arith, times-append t j m.initialised ((c.slot_count, i) ∷ [])),
  )

  got_slots-Called :
      (config : SlotConfig) (i : ℕ) (c : Context) (m : Machine a) (block : Option ℕ) (t j : ℕ)
      → Called config i c m t j (got_slots a config_size config i c m block)
  unfolding got_slots
  got_slots-Called config i c m none t j = ((refl, refl, refl), refl, refl, omega arith)
  got_slots-Called config i c m (some p) t j =
      let (quiet, inits) = release_some_lem (c.slots i) m in
      let (quiet', count, has, inits') = got_data-Called config i _ _ _ t j in
      (
        (quiet'.0 ∙ quiet.0, quiet'.1 ∙ quiet.1, quiet'.2 ∙ quiet.2),
        count,
        has,
        inits' ∙ ground (arith, ap (times t j) inits),
      )

  slot_round-Called :
      (config : SlotConfig) (i : ℕ) (c : Context) (m : Machine a) (t j : ℕ)
      → Called config i c m t j (slot_round a config_size config i c m)
  unfolding slot_round
  slot_round-Called config i c m t j = got_slots-Called config i c _ _ t j

  slot_loop-inits :
      (config : SlotConfig) (n i : ℕ) (c : Context) (m : Machine a) (t j : ℕ)
      → Quiet m (slot_loop a config_size config n i c m).0
        × ((slot_loop a config_size config n i c m).1.slot_count ≡ c.slot_count)
        × ((slot_loop a config_size config n i c m).1.has_destroy ≡ c.has_destroy)
        × ((slot_loop a config_size config n i c m).2 ≡ none
            → times t j (slot_loop a config_size config n i c m).0.initialised
              ≡ times t j m.initialised
                + (if config.has_init && c.slot_count == t && leb i j && ltb j (i + n)
                    then 1
                    else 0))
  unfolding slot_loop
  slot_loop-inits config zero i c m t j = ((refl, refl, refl), refl, refl, λ e. ground arith)
  slot_loop-inits config (suc n) i c m t j =
      let m' = (slot_round a config_size config i c m).0 in
      let c' = (slot_round a config_size config i c m).1 in
      let (quiet, count, has, inits) = slot_round-Called config i c m t j in
      let ih = slot_loop-inits config n (i + 1) c' m' t j in
      let r = slot_loop a config_size config n (i + 1) c' m' in
      elim (Bool-cases (slot_round a config_size config i c m).2) [
        | inl ok ↦ rw ok (
          Quiet-trans m m' r.0 quiet ih.0,
          ih.1 ∙ count,
          ih.2 ∙ has,
          λ e. ih.3 e ∙ ground (arith, inits, count),
        )
        | inr ended ↦ rw ended (quiet, count, has, λ e. cc)
      ]

  drop_slot-Quiet :
      (j : ℕ) (o : Option ℕ) (c : Context) (m : Machine a)
      → Quiet m (drop_slot a config_size j o c m).0
        × ((drop_slot a config_size j o c m).1.has_destroy ≡ c.has_destroy)
        × ((drop_slot a config_size j o c m).0.initialised ≡ m.initialised)
  unfolding drop_slot set_slot
  drop_slot-Quiet j none c m = ((refl, refl, refl), refl, refl)
  drop_slot-Quiet j (some p) c m = ((refl, refl, refl), refl, refl)

  pub fail_slots-Quiet :
      (n j : ℕ) (c : Context) (m : Machine a)
      → Quiet m (fail_slots a config_size n j c m).0
        × ((fail_slots a config_size n j c m).1.has_destroy ≡ c.has_destroy)
        × ((fail_slots a config_size n j c m).0.initialised ≡ m.initialised)
  unfolding fail_slots
  fail_slots-Quiet zero j c m = ((refl, refl, refl), refl, refl)
  fail_slots-Quiet (suc n) j c m =
      let o = c.slot j c.slot_count in
      let m' = (drop_slot a config_size j o c m).0 in
      let c' = (drop_slot a config_size j o c m).1 in
      let (quiet, has, inits) = drop_slot-Quiet j o c m in
      let (quiet', has', inits') = fail_slots-Quiet n (j + 1) c' m' in
      (
        Quiet-trans m m' (fail_slots a config_size n (j + 1) c' m').0 quiet quiet',
        has' ∙ has,
        inits' ∙ inits,
      )

  got_configs-Quiet :
      (c : Context) (capacity : ℕ) (m : Machine a) (block : Option ℕ)
      → Quiet m (got_configs a config_size c capacity m block).0
        × ((got_configs a config_size c capacity m block).0.initialised ≡ m.initialised)
        × ((d : Context)
            → (got_configs a config_size c capacity m block).1 ≡ some d
            → d.has_destroy ≡ c.has_destroy)
  unfolding got_configs
  got_configs-Quiet c capacity m none = ((refl, refl, refl), refl, λ d e. cc)
  got_configs-Quiet c capacity m (some p) =
      let (quiet, inits) = release_some_lem c.slot_configs m in (quiet, inits, λ d e. ground arith)

  grow_configs-Quiet :
      (c : Context) (m : Machine a)
      → Quiet m (grow_configs a config_size c m).0
        × ((grow_configs a config_size c m).0.initialised ≡ m.initialised)
        × ((d : Context)
            → (grow_configs a config_size c m).1 ≡ some d
            → d.has_destroy ≡ c.has_destroy)
  unfolding grow_configs
  grow_configs-Quiet c m = elim (Bool-cases (ltb c.slot_count c.slot_capacity)) [
    | inl room ↦ rw room ((refl, refl, refl), refl, λ d e. ground arith)
    | inr full ↦ rw full (got_configs-Quiet c _ _ _)
  ]

  -- After a call that returns an index, `init` has been called once more for the new slot of each of the
  -- `n` workers and the main thread; nothing but that is called in any case.
  abbrev pub Initialised :
      SlotConfig → ℕ → Context → Machine a → ℕ → ℕ → Machine a × Context × Option ℕ → Type 0
  Initialised config n c m t j r =
      Quiet m r.0
      × (r.2 ≢ none
          → (r.1.slot_count ≡ c.slot_count + 1)
            × (r.1.has_destroy ≡ update c.has_destroy c.slot_count config.has_destroy)
            × (times t j r.0.initialised
                ≡ times t j m.initialised
                  + (if config.has_init && c.slot_count == t && leb j n then 1 else 0)))

  after_slots-inits :
      (config : SlotConfig) (n : ℕ) (c : Context) (m : Machine a) (t j : ℕ)
      → Quiet m (after_slots a config_size (slot_loop a config_size config (suc n) 0 c m)).0
        × ((after_slots a config_size (slot_loop a config_size config (suc n) 0 c m)).2 ≢ none
            → ((after_slots a config_size
                  (slot_loop a config_size config (suc n) 0 c m)).1.slot_count
                ≡ c.slot_count + 1)
              × ((after_slots a config_size
                    (slot_loop a config_size config (suc n) 0 c m)).1.has_destroy
                  ≡ c.has_destroy)
              × (times t j
                    (after_slots a config_size
                      (slot_loop a config_size config (suc n) 0 c m)).0.initialised
                  ≡ times t j m.initialised
                    + (if config.has_init && c.slot_count == t && leb j n then 1 else 0)))
  unfolding after_slots
  after_slots-inits config n c m t j =
      go (slot_loop a config_size config (suc n) 0 c m) (slot_loop-inits config (suc n) 0 c m t j)
    where
      go :
          (r : Machine a × Context × Option ℕ)
          → Quiet m r.0
            × (r.1.slot_count ≡ c.slot_count)
            × (r.1.has_destroy ≡ c.has_destroy)
            × (r.2 ≡ none
                → times t j r.0.initialised
                  ≡ times t j m.initialised
                    + (if config.has_init && c.slot_count == t && leb 0 j && ltb j (0 + suc n)
                        then 1
                        else 0))
          → Quiet m (after_slots a config_size r).0
            × ((after_slots a config_size r).2 ≢ none
                → ((after_slots a config_size r).1.slot_count ≡ c.slot_count + 1)
                  × ((after_slots a config_size r).1.has_destroy ≡ c.has_destroy)
                  × (times t j (after_slots a config_size r).0.initialised
                      ≡ times t j m.initialised
                        + (if config.has_init && c.slot_count == t && leb j n then 1 else 0)))
      go (m', d, none) (quiet, count, has, inits) =
          (quiet, λ ne. (ap (λ k. k + 1) count, has, inits refl ∙ ground arith))
      go (m', d, some k) (quiet, count, has, inits) = (
        Quiet-trans m m' (fail_slots a config_size k 0 d m').0 quiet (fail_slots-Quiet k 0 d m').0,
        λ ne. absurd (ne refl),
      )

  pub register_slot-inits :
      (config : SlotConfig) (n : ℕ) (c : Context) (m : Machine a) (t j : ℕ)
      → n + 1 < 2 ^ 64
      → c.thread_count ≡ n
      → Initialised config n c m t j (register_slot a config_size config c m)
  unfolding register_slot with_configs
  register_slot-inits config n c m t j small threads = go (grow_configs a config_size c m) refl
    where
      go :
          (q : Machine a × Option Context)
          → grow_configs a config_size c m ≡ q
          → Initialised config n c m t j (with_configs a config_size config c q)
      go (m', none) e =
          (subst (λ q. Quiet m q.0) e (grow_configs-Quiet c m).0, λ ne. absurd (ne refl))
      go (m', some d) e =
          let (quiet, inits, has) = grow_configs-Quiet c m in
          let quiet' = subst (λ q. Quiet m q.0) e quiet in
          let (count, threads', slots, slot) =
            grow_configs_lem a config_size c m (ap (λ q. q.1) e) in
          let d' = record d {
            has_destroy = update d.has_destroy d.slot_count config.has_destroy;
          } in
          let words : u64 (d.thread_count + 1) ≡ suc n = omega (arith, threads, threads') in
          let r = after_slots a config_size (slot_loop a config_size config (suc n) 0 d' m') in
          let (after, called) = after_slots-inits config n d' m' t j in
          subst
            (λ k.
              Initialised config n c m t j
                (after_slots a config_size (slot_loop a config_size config k 0 d' m')))
            (sym words)
            (
              Quiet-trans m m' r.0 quiet' after,
              λ ne. (
                (called ne).0 ∙ ap (λ k. k + 1) count,
                (called ne).1
                    ∙ ap₂ (λ f k. update f k config.has_destroy) (has d (ap (λ q. q.1) e)) count,
                (called ne).2
                    ∙ ground
                        (arith, count, ap (λ q. times t j q.0.initialised) e, ap (times t j) inits),
              ),
            )
