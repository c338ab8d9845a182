-- ===== src/Queue/Progress.antt =====
-- What one call of try_enqueue or try_dequeue comes to when no other call is under way.
use ticktock.Prelude.{ℕ, ◌+◌, ◌%◌, ◌≤◌, ◌<◌, ◌≡◌, refl, ap, ◌∙◌, inl, inr}
use ticktock.Queue.{
  idle, tail_loaded, tail_ready, tail_won, value_stored, head_loaded, head_ready, head_won,
  value_loaded, Queue, init, goto, version_is_tail, win_tail, store_value, publish, version_is_next,
  win_head, load_value, Reach,
}
use ticktock.Queue.Alone.{
  actor, Moves, Moves-of, Inevitable, reached, forced, after_win_tail, after_store_value,
  after_publish, after_win_head,
}
use ticktock.Queue.Owned.{update_here}
use ticktock.Queue.Slots.{head_full, slot_free}

module _ (Value : Type 0) (capacity : ℕ) (two : 2 ≤ capacity) where
  -- The call has won ticket h of the head and loaded v under it.
  abbrev pub Dequeued : ℕ → ℕ → Value → Queue Value → Type 0
  Dequeued j h v q = (q.pc j ≡ value_loaded h v) × (q.head ≡ h + 1)

  -- On a queue of capacity two or more, in a reached state where no call is under way and m_head is below m_tail, a
  -- call of try_dequeue by any thread has loaded m_head. When it runs alone, it always has a step until, whatever
  -- steps it takes, it has won ticket m_head and loaded the value that was enqueued under it.
  pub dequeue_alone :
      (junk blank : ℕ → Value) (q : Queue Value) (j : ℕ)
      → Reach Value capacity (init Value junk blank) q
      → ((i : ℕ) → q.pc i ≡ idle)
      → q.head < q.tail
      → Inevitable Value capacity j
          (Dequeued j q.head (q.log q.head))
          (goto Value q j (head_loaded q.head))
  unfolding actor Moves
  dequeue_alone junk blank q j r quiet lt =
      let k = head_full Value capacity two junk blank q r quiet lt in
      let h = q.head in
      let q1 = goto Value q j (head_loaded h) in
      let q2 = goto Value q1 j (head_ready h) in
      let q3 = after_win_head Value capacity q2 j h in
      let q4 = goto Value q3 j (value_loaded h (q.value (h % capacity))) in
      let at1 : q1.pc j ≡ head_loaded h = update_here q.pc j (head_loaded h) in
      let at2 : q2.pc j ≡ head_ready h = update_here q1.pc j (head_ready h) in
      let at3 : q3.pc j ≡ head_won h = update_here q2.pc j (head_won h) in
      let at4 : q4.pc j ≡ value_loaded h (q.value (h % capacity)) =
        update_here q3.pc j (value_loaded h (q.value (h % capacity))) in
      let goal = Dequeued j h (q.log h) in
      forced Value capacity j goal q1 q2 (version_is_next j h at1 k.0) refl
        (λ q' st by. elim (Moves-of Value capacity st j (head_loaded h) by at1) [
          | inl ready ↦ ready.1
          | inr failed ↦ absurd (failed.0 k.0)
        ])
        (forced Value capacity j goal q2 q3 (win_head j h at2 refl) refl
          (λ q' st by. elim (Moves-of Value capacity st j (head_ready h) by at2) [
            | inl won ↦ won.1
            | inr lost ↦ absurd (lost.0 refl)
          ])
          (forced Value capacity j goal q3 q4 (load_value j h at3) refl
            (λ q' st by. Moves-of Value capacity st j (head_won h) by at3)
            (reached (at4 ∙ ap (λ (v : Value). value_loaded h v) k.1, refl))))

  -- The call has returned, and its value stands under ticket t, open to a reader.
  abbrev pub Enqueued : ℕ → ℕ → Value → Queue Value → Type 0
  Enqueued j t v q =
      (q.pc j ≡ idle)
      × (q.tail ≡ t + 1)
      × (q.value (t % capacity) ≡ v)
      × (q.version (t % capacity) ≡ t + 1)

  -- On a queue of capacity two or more, in a reached state where no call is under way and m_tail is less than the
  -- capacity above m_head, a call of try_enqueue by any thread has loaded m_tail. When it runs alone, it always has a
  -- step until, whatever steps it takes, it returns with m_tail one higher, its value in the slot of the
  -- old m_tail, and that slot open to a reader.
  pub enqueue_alone :
      (junk blank : ℕ → Value) (q : Queue Value) (j : ℕ) (v : Value)
      → Reach Value capacity (init Value junk blank) q
      → ((i : ℕ) → q.pc i ≡ idle)
      → q.tail < q.head + capacity
      → Inevitable Value capacity j (Enqueued j q.tail v) (goto Value q j (tail_loaded q.tail v))
  unfolding actor Moves
  enqueue_alone junk blank q j v r quiet room =
      let free = slot_free Value capacity two junk blank q r quiet room in
      let t = q.tail in
      let q1 = goto Value q j (tail_loaded t v) in
      let q2 = goto Value q1 j (tail_ready t v) in
      let q3 = after_win_tail Value capacity q2 j t v in
      let q4 = after_store_value Value capacity q3 j t v in
      let q5 = after_publish Value capacity q4 j t in
      let at1 : q1.pc j ≡ tail_loaded t v = update_here q.pc j (tail_loaded t v) in
      let at2 : q2.pc j ≡ tail_ready t v = update_here q1.pc j (tail_ready t v) in
      let at3 : q3.pc j ≡ tail_won t v = update_here q2.pc j (tail_won t v) in
      let at4 : q4.pc j ≡ value_stored t = update_here q3.pc j (value_stored t) in
      let goal = Enqueued j t v in
      forced Value capacity j goal q1 q2 (version_is_tail j t v at1 free) refl
        (λ q' st by. elim (Moves-of Value capacity st j (tail_loaded t v) by at1) [
          | inl ready ↦ ready.1
          | inr failed ↦ absurd (failed.0 free)
        ])
        (forced Value capacity j goal q2 q3 (win_tail j t v at2 refl) refl
          (λ q' st by. elim (Moves-of Value capacity st j (tail_ready t v) by at2) [
            | inl won ↦ won.1
            | inr lost ↦ absurd (lost.0 refl)
          ])
          (forced Value capacity j goal q3 q4 (store_value j t v at3) refl
            (λ q' st by. Moves-of Value capacity st j (tail_won t v) by at3)
            (forced Value capacity j goal q4 q5 (publish j t at4) refl
              (λ q' st by. Moves-of Value capacity st j (value_stored t) by at4)
              (reached (
                update_here q4.pc j idle,
                refl,
                update_here q.value (t % capacity) v,
                update_here q.version (t % capacity) (t + 1),
              )))))
