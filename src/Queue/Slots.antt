-- ===== src/Queue/Slots.antt =====
-- The slots at m_head and m_tail while no call is under way.
use ticktock.Prelude.{
  ℕ, ◌+◌, ◌-◌, ◌%◌, ◌≤◌, ◌<◌, ◌≡◌, refl, sym, ap, ◌∙◌, subst, arith, inl, inr, Bool-cases, ltb,
  ltb→lt,
}
use native.Mathlib.Nat.{add-mod_right, mod-le, mod-eq_of_lt}
use ticktock.Queue.{
  Phase, free, writing, full, reading, emptied, Pc, idle, Queue, init, Step, load_tail,
  version_is_tail, version_is_not_tail, win_tail, lose_tail, store_value, publish, load_head,
  version_is_next, version_is_not_next, win_head, lose_head, load_value, release, Reach, here,
  then_step,
}
use ticktock.Queue.Invariant.{TicketOk, at_phase}
use ticktock.Queue.Invariant.Reached.{Reach-Inv}
use ticktock.Queue.Owned.{Writing, Reading, Owned, AllOwned, Reach-AllOwned}

module _ (Value : Type 0) (capacity : ℕ) (two : 2 ≤ capacity) where
  -- Without a call under way, the tickets between m_head and m_tail are full.
  quiet_full :
      (q : Queue Value) (t : ℕ) (ph : Phase)
      → ((i : ℕ) → q.pc i ≡ idle)
      → TicketOk Value capacity q t ph
      → Owned Value q.pc t ph
      → q.head ≤ t
      → t < q.tail
      → ph ≡ full
  unfolding TicketOk Owned Writing Reading
  quiet_full q t free quiet k o le lt = absurd (omega arith)
  quiet_full q t (writing i) quiet k o le lt =
      absurd (subst (λ (c : Pc Value). Writing Value t c) (quiet i) o)
  quiet_full q t full quiet k o le lt = refl
  quiet_full q t (reading i) quiet k o le lt =
      absurd (subst (λ (c : Pc Value). Reading Value t c) (quiet i) o)
  quiet_full q t emptied quiet k o le lt = absurd (omega arith)

  pub head_full :
      (junk blank : ℕ → Value) (q : Queue Value)
      → Reach Value capacity (init Value junk blank) q
      → ((i : ℕ) → q.pc i ≡ idle)
      → q.head < q.tail
      → (q.version (q.head % capacity) ≡ q.head + 1) × (q.value (q.head % capacity) ≡ q.log q.head)
  unfolding TicketOk AllOwned
  head_full junk blank q r quiet lt =
      let inv = Reach-Inv Value capacity two junk blank r in
      let o = Reach-AllOwned Value junk blank r in
      let h = q.head in
      let e = quiet_full q h (q.phase h) quiet (inv.tickets h) (o h) (omega arith) lt in
      let k = at_phase Value capacity q h full inv e in (k.2, k.3)

  -- A slot is never behind its number.
  Versions : Queue Value → Type 0
  Versions q = (s : ℕ) → s < capacity → s ≤ q.version s

  Step-Versions : {q q' : Queue Value} → Step Value capacity q q' → Versions q → Versions q'
  unfolding Versions
  Step-Versions (load_tail j v e) o = o
  Step-Versions (version_is_tail j t v e same) o = o
  Step-Versions (version_is_not_tail j t v e other) o = o
  Step-Versions (win_tail j t v e won) o = o
  Step-Versions (lose_tail j t v e lost) o = o
  Step-Versions (store_value j t v e) o = o
  Step-Versions (publish j t e) o =
      λ s lt. let before = o s lt in let m = mod-le t capacity in ground arith
  Step-Versions (load_head j e) o = o
  Step-Versions (version_is_next j h e same) o = o
  Step-Versions (version_is_not_next j h e other) o = o
  Step-Versions (win_head j h e won) o = o
  Step-Versions (lose_head j h e lost) o = o
  Step-Versions (load_value j h e) o = o
  Step-Versions (release j h v e) o =
      λ s lt. let before = o s lt in let m = mod-le h capacity in ground arith

  Reach-Versions :
      (junk blank : ℕ → Value) {q : Queue Value}
      → Reach Value capacity (init Value junk blank) q
      → Versions q
  unfolding Versions init
  Reach-Versions junk blank here = λ s lt. omega arith
  Reach-Versions junk blank (then_step r st) = Step-Versions st (Reach-Versions junk blank r)

  -- Without a call under way, the tickets below m_head are emptied, and their slots a round ahead.
  quiet_emptied :
      (q : Queue Value) (t : ℕ) (ph : Phase)
      → ((i : ℕ) → q.pc i ≡ idle)
      → TicketOk Value capacity q t ph
      → Owned Value q.pc t ph
      → q.head ≤ q.tail
      → t < q.head
      → t + capacity ≤ q.version (t % capacity)
  unfolding TicketOk Owned Writing Reading
  quiet_emptied q t free quiet k o le lt = absurd (omega arith)
  quiet_emptied q t (writing i) quiet k o le lt = absurd (omega arith)
  quiet_emptied q t full quiet k o le lt = absurd (omega arith)
  quiet_emptied q t (reading i) quiet k o le lt =
      absurd (subst (λ (c : Pc Value). Reading Value t c) (quiet i) o)
  quiet_emptied q t emptied quiet k o le lt = k.2

  -- The ticket at m_tail is not taken.
  tail_free :
      (q : Queue Value) (ph : Phase)
      → q.head ≤ q.tail
      → TicketOk Value capacity q q.tail ph
      → q.version (q.tail % capacity) ≤ q.tail
  unfolding TicketOk
  tail_free q free le k = k.1
  tail_free q (writing i) le k = absurd (omega arith)
  tail_free q full le k = absurd (omega arith)
  tail_free q (reading i) le k = absurd (omega arith)
  tail_free q emptied le k = absurd (omega arith)

  pub slot_free :
      (junk blank : ℕ → Value) (q : Queue Value)
      → Reach Value capacity (init Value junk blank) q
      → ((i : ℕ) → q.pc i ≡ idle)
      → q.tail < q.head + capacity
      → q.version (q.tail % capacity) ≡ q.tail
  unfolding AllOwned Versions
  slot_free junk blank q r quiet room =
      let inv = Reach-Inv Value capacity two junk blank r in
      let o = Reach-AllOwned Value junk blank r in
      let t = q.tail in
      let behind : q.version (t % capacity) ≤ t =
        tail_free q (q.phase t) inv.order (inv.tickets t) in
      elim (Bool-cases (ltb t capacity)) [
        | inl small ↦
            let first : t % capacity ≡ t = mod-eq_of_lt (ltb→lt t capacity small) in
            let old = Reach-Versions junk blank r t (ltb→lt t capacity small) in
            let old' : t ≤ q.version (t % capacity) = rw first old in omega arith
        | inr big ↦
            let u = t - capacity in
            let back : u + capacity ≡ t = ground arith in
            let slot : (u + capacity) % capacity ≡ u % capacity = add-mod_right u capacity in
            let same : t % capacity ≡ u % capacity =
              ap (λ (n : ℕ). n % capacity) (sym back) ∙ slot in
            let last =
              quiet_emptied q u (q.phase u) quiet (inv.tickets u) (o u) inv.order (ground arith) in
            let last' : u + capacity ≤ q.version (t % capacity) = rw same last in omega arith
      ]
