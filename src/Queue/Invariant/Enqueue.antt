-- ===== src/Queue/Invariant/Enqueue.antt =====
-- The steps of try_enqueue that change more than its thread.
use ticktock.Prelude.{ℕ, ◌+◌, ◌%◌, ◌≤◌, ◌<◌, ◌≡◌, ◌≢◌, refl, arith}
use ticktock.Queue.{
  update, Phase, free, writing, full, reading, emptied, Pc, idle, tail_loaded, tail_ready, tail_won,
  value_stored, head_loaded, head_ready, head_won, value_loaded, Queue,
}
use ticktock.Queue.Invariant.{
  slots_apart, TicketOk, ThreadOk, Inv, others, at_phase, at_pc, by_ticket,
}

module _ (Value : Type 0) (capacity : ℕ) (two : 2 ≤ capacity) where
  pub win_tail-Inv :
      (q : Queue Value) (j t : ℕ) (v : Value)
      → Inv Value capacity q
      → q.pc j ≡ tail_ready t v
      → q.tail ≡ t
      → Inv Value capacity (record q {
        tail = t + 1;
        pc = update q.pc j (tail_won t v);
        log = update q.log t v;
        phase = update q.phase t (writing j);
      })
  unfolding TicketOk ThreadOk
  win_tail-Inv q j t v inv at won = record {
    order = let o = inv.order in omega arith;
    tickets = by_ticket Value capacity q q' t (writing j) refl own ticket_of;
    threads =
        others Value capacity q q' j (tail_won t v) refl self
          (λ i ne. thread i ne (q.pc i) (inv.threads i));
  }
    where
      q' : Queue Value
      q' = record q {
        tail = t + 1;
        pc = update q.pc j (tail_won t v);
        log = update q.log t v;
        phase = update q.phase t (writing j);
      }

      ready : (t ≤ q.tail) × (q.tail ≤ t → q.version (t % capacity) ≡ t)
      ready = at_pc Value capacity q j (tail_ready t v) inv at

      own : TicketOk Value capacity q' t (writing j)
      own = let r = ready.1 (omega arith) in let o = inv.order in (omega arith, omega arith, r)

      self : ThreadOk Value capacity q' j (tail_won t v)
      self = ground arith

      ticket :
          (u : ℕ)
          → u ≢ t
          → (ph : Phase) → TicketOk Value capacity q u ph
          → TicketOk Value capacity q' u ph
      ticket u ne free h = ground arith
      ticket u ne (writing i) h = ground arith
      ticket u ne full h = ground arith
      ticket u ne (reading i) h = ground arith
      ticket u ne emptied h = ground arith

      ticket_of : (u : ℕ) → u ≢ t → TicketOk Value capacity q' u (q.phase u)
      ticket_of u ne = ticket u ne (q.phase u) (inv.tickets u)

      thread :
          (i : ℕ)
          → i ≢ j
          → (pc : Pc Value) → ThreadOk Value capacity q i pc
          → ThreadOk Value capacity q' i pc
      thread i ne idle h = tt
      thread i ne (tail_loaded u w) h = ground arith
      thread i ne (tail_ready u w) h = ground arith
      thread i ne (tail_won u w) h =
          let lt = at_phase Value capacity q u (writing i) inv h.0 in ground arith
      thread i ne (value_stored u) h =
          let lt = at_phase Value capacity q u (writing i) inv h.0 in ground arith
      thread i ne (head_loaded u) h = ground arith
      thread i ne (head_ready u) h = (
        ground arith,
        λ le. let f = h.1 le in let lt = at_phase Value capacity q u full inv f in ground arith,
      )
      thread i ne (head_won u) h =
          let lt = at_phase Value capacity q u (reading i) inv h in ground arith
      thread i ne (value_loaded u w) h =
          let lt = at_phase Value capacity q u (reading i) inv h.0 in ground arith

  pub store_value-Inv :
      (q : Queue Value) (j t : ℕ) (v : Value)
      → Inv Value capacity q
      → q.pc j ≡ tail_won t v
      → Inv Value capacity (record q {
        value = update q.value (t % capacity) v;
        pc = update q.pc j (value_stored t);
      })
  unfolding TicketOk ThreadOk
  store_value-Inv q j t v inv at = record {
    order = inv.order;
    tickets = λ u. ticket u (q.phase u) (inv.tickets u);
    threads =
        others Value capacity q q' j (value_stored t) refl self
          (λ i ne. thread i ne (q.pc i) (inv.threads i));
  }
    where
      q' : Queue Value
      q' = record q { value = update q.value (t % capacity) v; pc = update q.pc j (value_stored t) }

      won : (q.phase t ≡ writing j) × (q.log t ≡ v)
      won = at_pc Value capacity q j (tail_won t v) inv at

      ticket_t : (q.head ≤ t) × (t < q.tail) × (q.version (t % capacity) ≡ t)
      ticket_t = at_phase Value capacity q t (writing j) inv won.0

      self : ThreadOk Value capacity q' j (value_stored t)
      self = let w = won in ground arith

      ticket :
          (u : ℕ) → (ph : Phase) → TicketOk Value capacity q u ph → TicketOk Value capacity q' u ph
      ticket u free h = h
      ticket u (writing i) h = h
      ticket u full h = let g = ticket_t in let s = slots_apart capacity t u in ground arith
      ticket u (reading i) h = let g = ticket_t in let s = slots_apart capacity t u in ground arith
      ticket u emptied h = h

      thread :
          (i : ℕ)
          → i ≢ j
          → (pc : Pc Value) → ThreadOk Value capacity q i pc
          → ThreadOk Value capacity q' i pc
      thread i ne idle h = tt
      thread i ne (tail_loaded u w) h = h
      thread i ne (tail_ready u w) h = h
      thread i ne (tail_won u w) h = h
      thread i ne (value_stored u) h =
          let g = ticket_t in
          let w = won in
          let lt = at_phase Value capacity q u (writing i) inv h.0 in
          let s = slots_apart capacity t u in ground arith
      thread i ne (head_loaded u) h = h
      thread i ne (head_ready u) h = h
      thread i ne (head_won u) h = h
      thread i ne (value_loaded u w) h = h

  pub publish-Inv :
      (q : Queue Value) (j t : ℕ)
      → Inv Value capacity q
      → q.pc j ≡ value_stored t
      → Inv Value capacity (record q {
        version = update q.version (t % capacity) (t + 1);
        pc = update q.pc j idle;
        phase = update q.phase t full;
      })
  unfolding TicketOk ThreadOk
  publish-Inv q j t inv at = record {
    order = inv.order;
    tickets = by_ticket Value capacity q q' t full refl own ticket_of;
    threads =
        others Value capacity q q' j idle refl self (λ i ne. thread i ne (q.pc i) (inv.threads i));
  }
    where
      q' : Queue Value
      q' = record q {
        version = update q.version (t % capacity) (t + 1);
        pc = update q.pc j idle;
        phase = update q.phase t full;
      }

      stored : (q.phase t ≡ writing j) × (q.value (t % capacity) ≡ q.log t)
      stored = at_pc Value capacity q j (value_stored t) inv at

      ticket_t : (q.head ≤ t) × (t < q.tail) × (q.version (t % capacity) ≡ t)
      ticket_t = at_phase Value capacity q t (writing j) inv stored.0

      own : TicketOk Value capacity q' t full
      own = let w = stored in let g = ticket_t in ground arith

      self : ThreadOk Value capacity q' j idle
      self = tt

      ticket :
          (u : ℕ)
          → u ≢ t
          → (ph : Phase) → TicketOk Value capacity q u ph
          → TicketOk Value capacity q' u ph
      ticket u ne free h = let g = ticket_t in let s = slots_apart capacity t u in ground arith
      ticket u ne (writing i) h =
          let g = ticket_t in let s = slots_apart capacity t u in ground arith
      ticket u ne full h = let g = ticket_t in let s = slots_apart capacity t u in ground arith
      ticket u ne (reading i) h =
          let g = ticket_t in let s = slots_apart capacity t u in ground arith
      ticket u ne emptied h = let g = ticket_t in let s = slots_apart capacity t u in ground arith

      ticket_of : (u : ℕ) → u ≢ t → TicketOk Value capacity q' u (q.phase u)
      ticket_of u ne = ticket u ne (q.phase u) (inv.tickets u)

      thread :
          (i : ℕ)
          → i ≢ j
          → (pc : Pc Value) → ThreadOk Value capacity q i pc
          → ThreadOk Value capacity q' i pc
      thread i ne idle h = tt
      thread i ne (tail_loaded u w) h = h
      thread i ne (tail_ready u w) h =
          let g = ticket_t in let s = slots_apart capacity t u in ground arith
      thread i ne (tail_won u w) h = let w = stored in ground arith
      thread i ne (value_stored u) h = let w = stored in ground arith
      thread i ne (head_loaded u) h = h
      thread i ne (head_ready u) h = let w = stored in ground arith
      thread i ne (head_won u) h = let w = stored in ground arith
      thread i ne (value_loaded u w) h = let w = stored in ground arith
