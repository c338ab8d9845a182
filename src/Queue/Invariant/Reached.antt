-- ===== src/Queue/Invariant/Reached.antt =====
-- The invariant holds in each state that the queue reaches.
use ticktock.Prelude.{ℕ, ◌+◌, ◌%◌, ◌≤◌, ◌<◌, ◌≡◌, refl, arith}
use native.Mathlib.Nat.{mod-le}
use ticktock.Queue.{
  Phase, free, writing, full, reading, emptied, idle, tail_loaded, tail_ready, head_loaded,
  head_ready, head_won, value_loaded, Queue, init, Step, load_tail, version_is_tail,
  version_is_not_tail, win_tail, lose_tail, store_value, publish, load_head, version_is_next,
  version_is_not_next, win_head, lose_head, load_value, release, Reach, here, then_step,
}
use ticktock.Queue.Invariant.{TicketOk, ThreadOk, Inv, goto-Inv, at_phase, at_pc}
use ticktock.Queue.Invariant.Enqueue.{win_tail-Inv, store_value-Inv, publish-Inv}
use ticktock.Queue.Invariant.Dequeue.{win_head-Inv, release-Inv}

module _ (Value : Type 0) (capacity : ℕ) (two : 2 ≤ capacity) where
  -- A version that is one ahead of m_head marks a full slot.
  next_is_full :
      (q : Queue Value) (h : ℕ)
      → Inv Value capacity q
      → q.head ≤ h
      → q.version (h % capacity) ≡ h + 1
      → q.phase h ≡ full
  unfolding TicketOk
  next_is_full q h inv le next = by_phase (q.phase h) (inv.tickets h)
    where
      by_phase : (ph : Phase) → TicketOk Value capacity q h ph → ph ≡ full
      by_phase free g = absurd (omega arith)
      by_phase (writing j) g = absurd (omega arith)
      by_phase full g = refl
      by_phase (reading j) g = absurd (omega arith)
      by_phase emptied g = absurd (omega arith)

  at_ticket :
      (q : Queue Value) (h j : ℕ)
      → Inv Value capacity q
      → q.phase h ≡ reading j
      → (h < q.head)
        × (h < q.tail)
        × (q.version (h % capacity) ≡ h + 1)
        × (q.value (h % capacity) ≡ q.log h)
  unfolding TicketOk
  at_ticket q h j inv e = at_phase Value capacity q h (reading j) inv e

  pub Step-Inv :
      {q q' : Queue Value} → Step Value capacity q q' → Inv Value capacity q → Inv Value capacity q'
  unfolding ThreadOk
  Step-Inv {q} (load_tail j v e) inv =
      goto-Inv Value capacity q j (tail_loaded q.tail v) inv (omega arith)
  Step-Inv {q} (version_is_tail j t v e same) inv =
      goto-Inv Value capacity q j (tail_ready t v) inv
        (at_pc Value capacity q j (tail_loaded t v) inv e, λ le. same)
  Step-Inv {q} (version_is_not_tail j t v e other) inv = goto-Inv Value capacity q j idle inv tt
  Step-Inv {q} (win_tail j t v e won) inv = win_tail-Inv Value capacity two q j t v inv e won
  Step-Inv {q} (lose_tail j t v e lost) inv = goto-Inv Value capacity q j idle inv tt
  Step-Inv {q} (store_value j t v e) inv = store_value-Inv Value capacity two q j t v inv e
  Step-Inv {q} (publish j t e) inv = publish-Inv Value capacity two q j t inv e
  Step-Inv {q} (load_head j e) inv =
      goto-Inv Value capacity q j (head_loaded q.head) inv (omega arith)
  Step-Inv {q} (version_is_next j h e same) inv =
      goto-Inv Value capacity q j (head_ready h) inv
        (at_pc Value capacity q j (head_loaded h) inv e, λ le. next_is_full q h inv le same)
  Step-Inv {q} (version_is_not_next j h e other) inv = goto-Inv Value capacity q j idle inv tt
  Step-Inv {q} (win_head j h e won) inv = win_head-Inv Value capacity two q j h inv e won
  Step-Inv {q} (lose_head j h e lost) inv = goto-Inv Value capacity q j idle inv tt
  Step-Inv {q} (load_value j h e) inv =
      let at : q.phase h ≡ reading j = at_pc Value capacity q j (head_won h) inv e in
      goto-Inv Value capacity q j (value_loaded h (q.value (h % capacity))) inv
        (at, (at_ticket q h j inv at).3)
  Step-Inv {q} (release j h v e) inv = release-Inv Value capacity two q j h v inv e

  -- In every state that is reached from the fresh queue, with a capacity of two or more.
  pub Reach-Inv :
      (junk blank : ℕ → Value) {q : Queue Value}
      → Reach Value capacity (init Value junk blank) q
      → Inv Value capacity q
  unfolding init TicketOk ThreadOk
  Reach-Inv junk blank here = record {
    order = omega arith;
    tickets = λ t. (omega arith, mod-le t capacity);
    threads = λ j. tt;
  }
  Reach-Inv junk blank (then_step r st) = Step-Inv st (Reach-Inv junk blank r)
