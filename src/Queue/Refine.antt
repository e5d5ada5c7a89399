-- ===== src/Queue/Refine.antt =====
-- The calls of `Queue.Calls`, without competition, against the list of `Queue.Fifo`.
use bc_concurrency.Base.{
  ℕ, suc, ◌+◌, ◌-◌, ◌^◌, ◌≤◌, ◌<◌, ◌≡◌, ◌⊎◌, ◌∙◌, ap, inl, inr, refl, true, false, none, some, List,
  [], ◌∷◌, length, arith, update, Bool-cases,
}
use native.Mathlib.Decide.{dec_lt}
use bc_concurrency.Queue.{Shape, Cells, slot_sequence, slot_data}
use bc_concurrency.Queue.Layout.{IsShaped, slot-eq, slot-lap}
use bc_concurrency.Queue.Steps.{move}
use bc_concurrency.Queue.Fifo.{
  Fifo, Op, push, pop, close, pushed, popped, shut, step_fifo, run_fifo,
}
use bc_concurrency.Queue.Calls.{finish, serve, serve_all}
use bc_concurrency.Queue.Contents.{
  contents, window-none, window-claim, window-uncons, length-contents,
}

-- A queue that no thread is in: the slot that position `p` is the next to use is free for it, or
-- holds the element of the position one lap before.
pub record Settled {A : Type 0} (g : Shape) (n : ℕ) (q : Cells A) (claimed : ℕ → A) : Type 0 where
  pub few : q.enqueue_position ≤ n
  pub order : q.dequeue_position ≤ q.enqueue_position
  pub bound : q.enqueue_position ≤ q.dequeue_position + g.capacity
  pub slots :
      (p : ℕ)
      → q.enqueue_position ≤ p
      → p < q.enqueue_position + g.capacity
      → ((q.sequence_at (slot_sequence g p) ≡ p) × (p < q.dequeue_position + g.capacity))
        ⊎ ((q.sequence_at (slot_sequence g p) + g.capacity ≡ p + 1)
            × (q.dequeue_position + g.capacity ≤ p)
            × (q.item_at (slot_data g p) ≡ claimed (p - g.capacity)))

abbrev pub view : {A : Type 0} → Cells A → (ℕ → A) → Fifo A
view q claimed = record { items = contents q claimed; closed = q.closed }

module _ {A : Type 0} {g : Shape} (shaped : IsShaped g) (two : 2 ≤ g.capacity) where
  module _ {n : ℕ} {q : Cells A} {claimed : ℕ → A} (small : n + g.capacity < 2 ^ 63)
      (s : Settled g n q claimed) where
    open s use {few, order, bound, slots}

    -- The cells after a push that finds room.
    abbrev after_push : A → Cells A
    after_push x = record q {
      enqueue_position = q.enqueue_position + 1;
      item_at = update q.item_at (slot_data g q.enqueue_position) x;
      sequence_at =
          update q.sequence_at (slot_sequence g q.enqueue_position) (q.enqueue_position + 1);
    }

    push_room :
        (x : A)
        → q.closed ≡ false
        → q.enqueue_position < q.dequeue_position + g.capacity
        → serve g q (push x) ≡ some (after_push x, pushed true)
    unfolding serve finish move
    push_room x open_ room = ground (arith, slots q.enqueue_position)

    push_closed : (x : A) → q.closed ≡ true → serve g q (push x) ≡ some (q, pushed false)
    unfolding serve finish move
    push_closed x shut_ = ground arith

    push_full :
        (x : A)
        → q.enqueue_position ≡ q.dequeue_position + g.capacity
        → serve g q (push x) ≡ some (q, pushed false)
    unfolding serve finish move
    push_full x full = ground (arith, slots q.enqueue_position)

    after_push-Settled :
        (x : A)
        → q.enqueue_position < q.dequeue_position + g.capacity
        → Settled g (suc n) (after_push x) (update claimed q.enqueue_position x)
    unfolding slot_data
    after_push-Settled x room = record {
      few = omega arith;
      order = omega arith;
      bound = omega arith;
      slots = λ p lo hi. ground (
        arith,
        slots p,
        slots q.enqueue_position,
        slot-lap shaped q.enqueue_position,
        slot-eq shaped q.enqueue_position p,
        ap (update claimed q.enqueue_position x) back,
      );
    }
      where
        back : q.enqueue_position + g.capacity - g.capacity ≡ q.enqueue_position
        back = omega arith

    -- The cells after a pop that finds an element.
    abbrev after_pop : Cells A
    after_pop = record q {
      dequeue_position = q.dequeue_position + 1;
      sequence_at =
          update q.sequence_at (slot_sequence g q.dequeue_position)
            (q.dequeue_position + g.capacity);
    }

    oldest :
        q.dequeue_position < q.enqueue_position
        → (q.sequence_at (slot_sequence g q.dequeue_position) ≡ q.dequeue_position + 1)
          × (q.item_at (slot_data g q.dequeue_position) ≡ claimed q.dequeue_position)
    unfolding slot_data
    oldest some_ = ground (
      arith,
      slots (q.dequeue_position + g.capacity),
      slot-lap shaped q.dequeue_position,
      ap claimed back,
    )
      where
        back : q.dequeue_position + g.capacity - g.capacity ≡ q.dequeue_position
        back = omega arith

    pop_some :
        q.dequeue_position < q.enqueue_position
        → serve g q pop ≡ some (after_pop, popped (some (claimed q.dequeue_position)))
    unfolding serve finish move
    pop_some some_ = ground (arith, oldest some_)

    pop_none : q.dequeue_position ≡ q.enqueue_position → serve g q pop ≡ some (q, popped none)
    unfolding serve finish move
    pop_none empty = ground (arith, slots q.dequeue_position)

    after_pop-Settled :
        q.dequeue_position < q.enqueue_position → Settled g (suc n) after_pop claimed
    unfolding slot_data
    after_pop-Settled some_ = record {
      few = omega arith;
      order = omega arith;
      bound = omega arith;
      slots = λ p lo hi.
          ground (
            arith,
            slots p,
            slot-lap shaped q.dequeue_position,
            slot-eq shaped q.dequeue_position p,
          );
    }

    close_lem : serve g q close ≡ some (record q { closed = true }, shut)
    unfolding serve finish move
    close_lem = refl

    pub Settled-suc : Settled g (suc n) q claimed
    Settled-suc = record { few = omega arith; order = order; bound = bound; slots = slots }

    close-Settled : Settled g (suc n) (record q { closed = true }) claimed
    close-Settled = record { few = omega arith; order = order; bound = bound; slots = slots }

  -- A call answers as the list does and leaves the queue settled on the list's new items.
  pub record Served (n : ℕ) (q : Cells A) (claimed : ℕ → A) (o : Op A) : Type 0 where
    pub after : Cells A
    pub claimed' : ℕ → A
    pub served : serve g q o ≡ some (after, (step_fifo g.capacity (view q claimed) o).1)
    pub settled : Settled g (suc n) after claimed'
    pub viewed : view after claimed' ≡ (step_fifo g.capacity (view q claimed) o).0

  pub served_lem :
      {n : ℕ} {q : Cells A} {claimed : ℕ → A} (o : Op A)
      → n + g.capacity < 2 ^ 63
      → Settled g n q claimed
      → Served n q claimed o
  unfolding contents
  served_lem {q = q} {claimed = claimed} (push x) small s = elim (Bool-cases q.closed) [
    | inl e ↦ record {
      after = q;
      claimed' = claimed;
      served = push_closed small s x e ∙ ground arith;
      settled = Settled-suc small s;
      viewed = ground arith;
    }
    | inr e ↦ elim (dec_lt q.enqueue_position (q.dequeue_position + g.capacity)) [
      | yes room ↦ record {
        after = after_push small s x;
        claimed' = update claimed q.enqueue_position x;
        served = push_room small s x e room ∙ ground (arith, length-contents q claimed, s.order);
        settled = after_push-Settled small s x room;
        viewed = ground (
          arith,
          length-contents q claimed,
          s.order,
          window-claim claimed q.dequeue_position q.enqueue_position x s.order,
        );
      }
      | no full ↦ record {
        after = q;
        claimed' = claimed;
        served =
            push_full small s x (omega (arith, s.bound))
            ∙ ground (arith, length-contents q claimed);
        settled = Settled-suc small s;
        viewed = ground (arith, length-contents q claimed);
      }
    ]
  ]
  served_lem {q = q} {claimed = claimed} pop small s =
      elim (dec_lt q.dequeue_position q.enqueue_position) [
        | yes more ↦ record {
          after = after_pop small s;
          claimed' = claimed;
          served =
              pop_some small s more
              ∙ ground (arith, window-uncons claimed q.dequeue_position q.enqueue_position more);
          settled = after_pop-Settled small s more;
          viewed = ground (arith, window-uncons claimed q.dequeue_position q.enqueue_position more);
        }
        | no empty ↦
            let drained = window-none claimed q.dequeue_position q.enqueue_position (omega arith) in
            record {
              after = q;
              claimed' = claimed;
              served = pop_none small s (omega (arith, s.order)) ∙ ground (arith, drained);
              settled = Settled-suc small s;
              viewed = ground (arith, drained);
            }
      ]
  served_lem {q = q} {claimed = claimed} close small s = record {
    after = record q { closed = true };
    claimed' = claimed;
    served = close_lem small s;
    settled = close-Settled small s;
    viewed = refl;
  }

  -- From a settled queue of capacity 2 or more, with fewer than 2 ^ 63 - capacity calls behind and
  -- ahead of it, every sequence of uncontended calls returns, with the answers of the bounded list of
  -- its elements: pushes are refused exactly when it is closed or full, pops exactly when it is empty.
  pub serve_all_refines :
      {n : ℕ} {q : Cells A} {claimed : ℕ → A} (os : List (Op A))
      → n + length os + g.capacity < 2 ^ 63
      → Settled g n q claimed
      → serve_all g q os ≡ some (run_fifo g.capacity (view q claimed) os)
  unfolding serve_all
  serve_all_refines [] small s = refl
  serve_all_refines {n} {q} {claimed} (o ∷ os) small s = ground (
    arith,
    done.served,
    done.viewed,
    serve_all_refines {n = suc n} {q = done.after} {claimed = done.claimed'} os (omega arith)
        done.settled,
  )
    where
      done : Served n q claimed o
      done = served_lem o (omega arith) s
