-- ===== src/Queue/Invariant.antt =====
-- What holds of every ticket and of every thread in each state that the queue reaches.
pub mod Enqueue
pub mod Dequeue
pub mod Reached
use ticktock.Prelude.{
  ℕ, ◌+◌, ◌%◌, ◌≤◌, ◌<◌, ◌≡◌, ◌≢◌, refl, sym, subst, arith, inl, inr, Bool-cases, ◌==◌, ==_iff,
}
use native.Mathlib.Nat.{div-add-mod', mod-le}
use ticktock.Queue.{
  update, Phase, free, writing, full, reading, emptied, Pc, idle, tail_loaded, tail_ready, tail_won,
  value_stored, head_loaded, head_ready, head_won, value_loaded, Queue, init, goto, Step, load_tail,
  version_is_tail, version_is_not_tail, win_tail, lose_tail, store_value, publish, load_head,
  version_is_next, version_is_not_next, win_head, lose_head, load_value, release, Reach, here,
  then_step,
}

-- Two tickets of one slot are at least the capacity apart.
same_slot : (capacity t u : ℕ) → t % capacity ≡ u % capacity → t < u → t + capacity ≤ u
same_slot capacity t u e lt =
    let at = div-add-mod' t capacity in let au = div-add-mod' u capacity in grind (arith, at, au)

-- The same, for two tickets in either order.
pub slots_apart :
    (capacity t u : ℕ)
    → (t % capacity ≡ u % capacity → t < u → t + capacity ≤ u)
      × (u % capacity ≡ t % capacity → u < t → u + capacity ≤ t)
slots_apart capacity t u = (same_slot capacity t u, same_slot capacity u t)

module _ (Value : Type 0) (capacity : ℕ) where
  -- A ticket in its phase.
  unfoldable pub TicketOk : Queue Value → ℕ → Phase → Type 0
  TicketOk q t free = (q.tail ≤ t) × (q.version (t % capacity) ≤ t)
  TicketOk q t (writing j) = (q.head ≤ t) × (t < q.tail) × (q.version (t % capacity) ≡ t)
  TicketOk q t full =
      (q.head ≤ t)
      × (t < q.tail)
      × (q.version (t % capacity) ≡ t + 1)
      × (q.value (t % capacity) ≡ q.log t)
  TicketOk q t (reading j) =
      (t < q.head)
      × (t < q.tail)
      × (q.version (t % capacity) ≡ t + 1)
      × (q.value (t % capacity) ≡ q.log t)
  TicketOk q t emptied = (t < q.head) × (t < q.tail) × (t + capacity ≤ q.version (t % capacity))

  -- Thread j at a place of its call.
  unfoldable pub ThreadOk : Queue Value → ℕ → Pc Value → Type 0
  ThreadOk q j idle = Unit {0}
  ThreadOk q j (tail_loaded t v) = t ≤ q.tail
  ThreadOk q j (tail_ready t v) = (t ≤ q.tail) × (q.tail ≤ t → q.version (t % capacity) ≡ t)
  ThreadOk q j (tail_won t v) = (q.phase t ≡ writing j) × (q.log t ≡ v)
  ThreadOk q j (value_stored t) = (q.phase t ≡ writing j) × (q.value (t % capacity) ≡ q.log t)
  ThreadOk q j (head_loaded h) = h ≤ q.head
  ThreadOk q j (head_ready h) = (h ≤ q.head) × (q.head ≤ h → q.phase h ≡ full)
  ThreadOk q j (head_won h) = q.phase h ≡ reading j
  ThreadOk q j (value_loaded h v) = (q.phase h ≡ reading j) × (v ≡ q.log h)

  pub record Inv (q : Queue Value) : Type 0 where
    pub order : q.head ≤ q.tail
    pub tickets : (t : ℕ) → TicketOk q t (q.phase t)
    pub threads : (j : ℕ) → ThreadOk q j (q.pc j)

  -- A thread that did not take the step.
  pub others :
      (q q' : Queue Value) (j : ℕ) (p : Pc Value)
      → q'.pc ≡ update q.pc j p
      → ThreadOk q' j p
      → ((i : ℕ) → i ≢ j → ThreadOk q' i (q.pc i))
      → (i : ℕ) → ThreadOk q' i (q'.pc i)
  others q q' j p e ok rest i =
      subst (λ (f : ℕ → Pc Value). ThreadOk q' i (f i)) (sym e)
        (elim (Bool-cases (i == j)) [
          | inl same ↦
              let i_is_j : i ≡ j = (==_iff i j).0 same in
              rw same (subst (λ (k : ℕ). ThreadOk q' k p) (sym i_is_j) ok)
          | inr other ↦ rw other (rest i (λ e. ground arith))
        ])

  -- A step that only moves thread j.
  module _ (q : Queue Value) (j : ℕ) (p : Pc Value) where
    goto-TicketOk : (t : ℕ) (ph : Phase) → TicketOk q t ph → TicketOk (goto Value q j p) t ph
    unfolding TicketOk
    goto-TicketOk t free h = h
    goto-TicketOk t (writing i) h = h
    goto-TicketOk t full h = h
    goto-TicketOk t (reading i) h = h
    goto-TicketOk t emptied h = h

    goto-ThreadOk : (i : ℕ) (pc : Pc Value) → ThreadOk q i pc → ThreadOk (goto Value q j p) i pc
    unfolding ThreadOk
    goto-ThreadOk i idle h = h
    goto-ThreadOk i (tail_loaded t v) h = h
    goto-ThreadOk i (tail_ready t v) h = h
    goto-ThreadOk i (tail_won t v) h = h
    goto-ThreadOk i (value_stored t) h = h
    goto-ThreadOk i (head_loaded t) h = h
    goto-ThreadOk i (head_ready t) h = h
    goto-ThreadOk i (head_won t) h = h
    goto-ThreadOk i (value_loaded t v) h = h

    goto-Inv : Inv q → ThreadOk q j p → Inv (goto Value q j p)
    goto-Inv inv ok = record {
      order = inv.order;
      tickets = λ t. goto-TicketOk t (q.phase t) (inv.tickets t);
      threads =
          others q (goto Value q j p) j p refl (goto-ThreadOk j p ok)
            (λ i ne. goto-ThreadOk i (q.pc i) (inv.threads i));
    }

  -- A ticket whose phase is known.
  pub at_phase : (q : Queue Value) (t : ℕ) (ph : Phase) → Inv q → q.phase t ≡ ph → TicketOk q t ph
  at_phase q t ph inv e = subst (λ (p : Phase). TicketOk q t p) e (inv.tickets t)

  pub at_pc : (q : Queue Value) (j : ℕ) (pc : Pc Value) → Inv q → q.pc j ≡ pc → ThreadOk q j pc
  at_pc q j pc inv e = subst (λ (p : Pc Value). ThreadOk q j p) e (inv.threads j)

  -- The ticket of a step, and the others.
  pub by_ticket :
      (q q' : Queue Value) (t : ℕ) (ph : Phase)
      → q'.phase ≡ update q.phase t ph
      → TicketOk q' t ph
      → ((u : ℕ) → u ≢ t → TicketOk q' u (q.phase u))
      → (u : ℕ) → TicketOk q' u (q'.phase u)
  by_ticket q q' t ph e own rest u =
      subst (λ (f : ℕ → Phase). TicketOk q' u (f u)) (sym e)
        (elim (Bool-cases (u == t)) [
          | inl same ↦
              let u_is_t : u ≡ t = (==_iff u t).0 same in
              rw same (subst (λ (k : ℕ). TicketOk q' k ph) (sym u_is_t) own)
          | inr other ↦ rw other (rest u (λ e. ground arith))
        ])
