-- ===== src/Queue/Invariant/Dequeue.antt =====
-- The steps of try_dequeue that change more than its thread.
use ticktock.Prelude.{ℕ, ◌+◌, ◌%◌, ◌≤◌, ◌<◌, ◌≡◌, ◌≢◌, refl, arith}
use ticktock.Queue.{
  update, Phase, free, writing, full, reading, emptied, Pc, idle, tail_loaded, tail_ready, tail_won,
  value_stored, head_loaded, head_ready, head_won, value_loaded, Queue,
}
use ticktock.Queue.Invariant.{
  slots_apart, TicketOk, ThreadOk, Inv, others, at_phase, at_pc, by_ticket,
}

module _ (Value : Type 0) (capacity : ℕ) (two : 2 ≤ capacity) where
  pub win_head-Inv :
      (q : Queue Value) (j t : ℕ)
      → Inv Value capacity q
      → q.pc j ≡ head_ready t
      → q.head ≡ t
      → Inv Value capacity (record q {
        head = t + 1;
        pc = update q.pc j (head_won t);
        phase = update q.phase t (reading j);
      })
  unfolding TicketOk ThreadOk
  win_head-Inv q j t inv at won = record {
    order = let g = ticket_t in omega arith;
    tickets = by_ticket Value capacity q q' t (reading j) refl own ticket_of;
    threads =
        others Value capacity q q' j (head_won t) refl self
          (λ i ne. thread i ne (q.pc i) (inv.threads i));
  }
    where
      q' : Queue Value
      q' = record q {
        head = t + 1;
        pc = update q.pc j (head_won t);
        phase = update q.phase t (reading j);
      }

      is_full : q.phase t ≡ full
      is_full = (at_pc Value capacity q j (head_ready t) inv at).1 (omega arith)

      ticket_t :
          (q.head ≤ t)
          × (t < q.tail)
          × (q.version (t % capacity) ≡ t + 1)
          × (q.value (t % capacity) ≡ q.log t)
      ticket_t = at_phase Value capacity q t full inv is_full

      own : TicketOk Value capacity q' t (reading j)
      own = let g = ticket_t in ground arith

      self : ThreadOk Value capacity q' j (head_won t)
      self = ground arith

      ticket :
          (u : ℕ)
          → u ≢ t
          → (ph : Phase) → TicketOk Value capacity q u ph
          → TicketOk Value capacity q' u ph
      ticket u ne free h = ground arith
      ticket u ne (writing i) h = ground arith
      ticket u ne full h = ground arith
      ticket u ne (reading i) h = ground arith
      ticket u ne emptied h = ground arith

      ticket_of : (u : ℕ) → u ≢ t → TicketOk Value capacity q' u (q.phase u)
      ticket_of u ne = ticket u ne (q.phase u) (inv.tickets u)

      thread :
          (i : ℕ)
          → i ≢ j
          → (pc : Pc Value) → ThreadOk Value capacity q i pc
          → ThreadOk Value capacity q' i pc
      thread i ne idle h = tt
      thread i ne (tail_loaded u w) h = h
      thread i ne (tail_ready u w) h = h
      thread i ne (tail_won u w) h = let e = is_full in ground arith
      thread i ne (value_stored u) h = let e = is_full in ground arith
      thread i ne (head_loaded u) h = let e = is_full in ground arith
      thread i ne (head_ready u) h = let e = is_full in ground arith
      thread i ne (head_won u) h = let e = is_full in ground arith
      thread i ne (value_loaded u w) h = let e = is_full in ground arith

  pub release-Inv :
      (q : Queue Value) (j t : ℕ) (v : Value)
      → Inv Value capacity q
      → q.pc j ≡ value_loaded t v
      → Inv Value capacity (record q {
        version = update q.version (t % capacity) (t + capacity);
        pc = update q.pc j idle;
        phase = update q.phase t emptied;
      })
  unfolding TicketOk ThreadOk
  release-Inv q j t v inv at = record {
    order = inv.order;
    tickets = by_ticket Value capacity q q' t emptied refl own ticket_of;
    threads =
        others Value capacity q q' j idle refl self (λ i ne. thread i ne (q.pc i) (inv.threads i));
  }
    where
      q' : Queue Value
      q' = record q {
        version = update q.version (t % capacity) (t + capacity);
        pc = update q.pc j idle;
        phase = update q.phase t emptied;
      }

      loaded : (q.phase t ≡ reading j) × (v ≡ q.log t)
      loaded = at_pc Value capacity q j (value_loaded t v) inv at

      ticket_t :
          (t < q.head)
          × (t < q.tail)
          × (q.version (t % capacity) ≡ t + 1)
          × (q.value (t % capacity) ≡ q.log t)
      ticket_t = at_phase Value capacity q t (reading j) inv loaded.0

      own : TicketOk Value capacity q' t emptied
      own = let g = ticket_t in ground arith

      self : ThreadOk Value capacity q' j idle
      self = tt

      ticket :
          (u : ℕ)
          → u ≢ t
          → (ph : Phase) → TicketOk Value capacity q u ph
          → TicketOk Value capacity q' u ph
      ticket u ne free h = let g = ticket_t in let s = slots_apart capacity t u in ground arith
      ticket u ne (writing i) h =
          let g = ticket_t in let s = slots_apart capacity t u in ground arith
      ticket u ne full h = let g = ticket_t in let s = slots_apart capacity t u in ground arith
      ticket u ne (reading i) h =
          let g = ticket_t in let s = slots_apart capacity t u in ground arith
      ticket u ne emptied h = let g = ticket_t in let s = slots_apart capacity t u in ground arith

      ticket_of : (u : ℕ) → u ≢ t → TicketOk Value capacity q' u (q.phase u)
      ticket_of u ne = ticket u ne (q.phase u) (inv.tickets u)

      thread :
          (i : ℕ)
          → i ≢ j
          → (pc : Pc Value) → ThreadOk Value capacity q i pc
          → ThreadOk Value capacity q' i pc
      thread i ne idle h = tt
      thread i ne (tail_loaded u w) h = h
      thread i ne (tail_ready u w) h =
          let g = ticket_t in let s = slots_apart capacity t u in ground arith
      thread i ne (tail_won u w) h = let w = loaded in ground arith
      thread i ne (value_stored u) h = let w = loaded in ground arith
      thread i ne (head_loaded u) h = h
      thread i ne (head_ready u) h = let w = loaded in ground arith
      thread i ne (head_won u) h = let w = loaded in ground arith
      thread i ne (value_loaded u w) h = let w = loaded in ground arith
