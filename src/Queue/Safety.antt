-- ===== src/Queue/Safety.antt =====
-- What the callers of the lock-free queue rely on: a value comes out once, under the ticket it went in
-- with, and the counters stay within the capacity.
use ticktock.Prelude.{
  ℕ, ◌+◌, ◌-◌, ◌%◌, ◌≤◌, ◌<◌, ◌≡◌, refl, sym, ap, ◌∙◌, arith, inl, inr, Bool-cases, ltb,
}
use ticktock.Queue.{
  Phase, free, writing, full, reading, emptied, tail_ready, tail_won, value_loaded, Queue, init,
  size, Step, load_tail, version_is_tail, version_is_not_tail, win_tail, lose_tail, store_value,
  publish, load_head, version_is_next, version_is_not_next, win_head, lose_head, load_value,
  release, Reach, here, then_step,
}
use native.Mathlib.Nat.{add-mod_right}
use ticktock.Queue.Invariant.{TicketOk, ThreadOk, Inv, at_phase, at_pc}
use ticktock.Queue.Invariant.Reached.{Reach-Inv}

module _ (Value : Type 0) where
  -- The counters only grow, and the log of a ticket that is taken stays.
  Grows : Queue Value → Queue Value → Type 0
  Grows q q' = (q.head ≤ q'.head) × (q.tail ≤ q'.tail) × ((u : ℕ) → u < q.tail → q'.log u ≡ q.log u)

  Step-Grows : {capacity : ℕ} {q q' : Queue Value} → Step Value capacity q q' → Grows q q'
  unfolding Grows
  Step-Grows (load_tail j v e) = (omega arith, omega arith, λ u lt. refl)
  Step-Grows (version_is_tail j t v e same) = (omega arith, omega arith, λ u lt. refl)
  Step-Grows (version_is_not_tail j t v e other) = (omega arith, omega arith, λ u lt. refl)
  Step-Grows (win_tail j t v e won) = (omega arith, omega arith, λ u lt. ground arith)
  Step-Grows (lose_tail j t v e lost) = (omega arith, omega arith, λ u lt. refl)
  Step-Grows (store_value j t v e) = (omega arith, omega arith, λ u lt. refl)
  Step-Grows (publish j t e) = (omega arith, omega arith, λ u lt. refl)
  Step-Grows (load_head j e) = (omega arith, omega arith, λ u lt. refl)
  Step-Grows (version_is_next j h e same) = (omega arith, omega arith, λ u lt. refl)
  Step-Grows (version_is_not_next j h e other) = (omega arith, omega arith, λ u lt. refl)
  Step-Grows (win_head j h e won) = (omega arith, omega arith, λ u lt. refl)
  Step-Grows (lose_head j h e lost) = (omega arith, omega arith, λ u lt. refl)
  Step-Grows (load_value j h e) = (omega arith, omega arith, λ u lt. refl)
  Step-Grows (release j h v e) = (omega arith, omega arith, λ u lt. refl)

  Reach-Grows : {capacity : ℕ} {q q' : Queue Value} → Reach Value capacity q q' → Grows q q'
  unfolding Grows
  Reach-Grows here = (omega arith, omega arith, λ u lt. refl)
  Reach-Grows (then_step r st) =
      let g = Reach-Grows r in
      let s = Step-Grows st in (omega arith, omega arith, λ u lt. s.2 u (omega arith) ∙ g.2 u lt)

module _ (Value : Type 0) (capacity : ℕ) (two : 2 ≤ capacity) where
  pub Reach-onward :
      {start q q' : Queue Value}
      → Reach Value capacity start q
      → Reach Value capacity q q'
      → Reach Value capacity start q'
  Reach-onward r here = r
  Reach-onward r (then_step s st) = then_step (Reach-onward r s) st

  -- On a queue of capacity two or more, when a call of try_enqueue has won ticket t for its value, and in any later
  -- state a call of try_dequeue has won ticket t and loaded a value, then that is the value of
  -- the first call, whatever the other threads do in between.
  pub dequeue-enqueue :
      (junk blank : ℕ → Value) (i j t : ℕ) (v w : Value) (q q' : Queue Value)
      → Reach Value capacity (init Value junk blank) q
      → q.pc i ≡ tail_won t v
      → Reach Value capacity q q'
      → q'.pc j ≡ value_loaded t w
      → w ≡ v
  unfolding TicketOk ThreadOk Grows
  dequeue-enqueue junk blank i j t v w q q' before at_won after at_loaded =
      let inv = Reach-Inv Value capacity two junk blank before in
      let won = at_pc Value capacity q i (tail_won t v) inv at_won in
      let taken = at_phase Value capacity q t (writing i) inv won.0 in
      let inv' = Reach-Inv Value capacity two junk blank (Reach-onward before after) in
      let loaded = at_pc Value capacity q' j (value_loaded t w) inv' at_loaded in
      loaded.1 ∙ (Reach-Grows Value after).2 t taken.1 ∙ won.1

  Bounded : Queue Value → Type 0
  Bounded q = q.tail ≤ q.head + capacity

  -- The slot of m_tail is released by the ticket one round before.
  released :
      (q : Queue Value) (u : ℕ) (ph : Phase)
      → TicketOk Value capacity q u ph
      → u < q.tail
      → q.version (u % capacity) ≡ u + capacity
      → u < q.head
  unfolding TicketOk
  released q u free h lt e = absurd (omega arith)
  released q u (writing i) h lt e = absurd (omega arith)
  released q u full h lt e = absurd (omega arith)
  released q u (reading i) h lt e = h.0
  released q u emptied h lt e = h.0

  win-Bounded :
      (q : Queue Value) (j t : ℕ) (v : Value)
      → Inv Value capacity q
      → q.pc j ≡ tail_ready t v
      → q.tail ≡ t
      → t + 1 ≤ q.head + capacity
  unfolding ThreadOk
  win-Bounded q j t v inv at won = elim (Bool-cases (ltb t capacity)) [
    | inl small ↦ ground arith
    | inr big ↦
        let u = t - capacity in
        let back : u + capacity ≡ t = ground arith in
        let slot : (u + capacity) % capacity ≡ u % capacity = add-mod_right u capacity in
        let ready = (at_pc Value capacity q j (tail_ready t v) inv at).1 (omega arith) in
        let e : q.version (u % capacity) ≡ u + capacity =
          ap q.version (sym slot ∙ ap (λ (n : ℕ). n % capacity) back) ∙ ready ∙ sym back in
        let lt = released q u (q.phase u) (inv.tickets u) (omega arith) e in omega arith
  ]

  Step-Bounded :
      {q q' : Queue Value}
      → Inv Value capacity q
      → Step Value capacity q q'
      → Bounded q
      → Bounded q'
  unfolding Bounded
  Step-Bounded inv (load_tail j v e) b = b
  Step-Bounded inv (version_is_tail j t v e same) b = b
  Step-Bounded inv (version_is_not_tail j t v e other) b = b
  Step-Bounded {q} inv (win_tail j t v e won) b = win-Bounded q j t v inv e won
  Step-Bounded inv (lose_tail j t v e lost) b = b
  Step-Bounded inv (store_value j t v e) b = b
  Step-Bounded inv (publish j t e) b = b
  Step-Bounded inv (load_head j e) b = b
  Step-Bounded inv (version_is_next j h e same) b = b
  Step-Bounded inv (version_is_not_next j h e other) b = b
  Step-Bounded inv (win_head j h e won) b = omega arith
  Step-Bounded inv (lose_head j h e lost) b = b
  Step-Bounded inv (load_value j h e) b = b
  Step-Bounded inv (release j h v e) b = b

  Reach-Bounded :
      (junk blank : ℕ → Value) {q : Queue Value}
      → Reach Value capacity (init Value junk blank) q
      → Bounded q
  unfolding Bounded init
  Reach-Bounded junk blank here = omega arith
  Reach-Bounded junk blank (then_step r st) =
      Step-Bounded (Reach-Inv Value capacity two junk blank r) st (Reach-Bounded junk blank r)

  -- In every reached state m_tail is at least m_head and at most the capacity above it, on a queue of
  -- capacity two or more; so
  -- size() in one state is at most the capacity. When size() loads m_head in one state and reads m_tail in a
  -- later one, m_tail is still at least the m_head it loaded, so that its difference does not wrap around.
  pub size_bounds :
      (junk blank : ℕ → Value) (q q' : Queue Value)
      → Reach Value capacity (init Value junk blank) q
      → Reach Value capacity q q'
      → (size Value q.head q ≤ capacity) × (size Value q.head q' + q.head ≡ q'.tail)
  unfolding Bounded Grows
  size_bounds junk blank q q' before after =
      let inv = Reach-Inv Value capacity two junk blank before in
      let o = inv.order in
      let b = Reach-Bounded junk blank before in
      let g = Reach-Grows Value after in let later = g.1 in (ground arith, ground arith)
