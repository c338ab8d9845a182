-- ===== src/Queue/Reader.antt =====
-- A ticket of the head is given to one call of try_dequeue only.
use ticktock.Prelude.{
  ℕ, ◌≤◌, ◌≡◌, ◌≢◌, ◌⊎◌, refl, sym, ap, ◌∙◌, subst, arith, inl, inr, false, Bool-cases, ◌==◌,
  ==_iff,
}
use ticktock.Queue.{
  update, Phase, writing, full, reading, emptied, value_loaded, Queue, init, Step, load_tail,
  version_is_tail, version_is_not_tail, win_tail, lose_tail, store_value, publish, load_head,
  version_is_next, version_is_not_next, win_head, lose_head, load_value, release, Reach, here,
  then_step,
}
use ticktock.Queue.Alone.{actor, Moves, Moves-of}
use ticktock.Queue.Invariant.{TicketOk, ThreadOk, Inv, at_phase, at_pc}
use ticktock.Queue.Invariant.Reached.{Reach-Inv}
use ticktock.Queue.Owned.{update_here}
use ticktock.Queue.Safety.{Reach-onward}

IsWriting : Phase → Type 0
IsWriting (writing j) = Unit {0}
IsWriting _ = ⊥

IsReading : Phase → Type 0
IsReading (reading j) = Unit {0}
IsReading _ = ⊥

update_other : {A : Type 0} (f : ℕ → A) (j i : ℕ) (a : A) → i ≢ j → update f j a i ≡ f i
update_other f j i a ne = let e : (i == j) ≡ false = ground arith in rw e refl

module _ (Value : Type 0) where
  -- No step of a run is of thread i.
  unfoldable pub IsStill :
      {capacity : ℕ} {q q' : Queue Value} → ℕ → Reach Value capacity q q' → Type 0
  IsStill i here = Unit {0}
  IsStill i (then_step r st) = IsStill i r × (i ≢ actor Value st)

  Step-other :
      {capacity : ℕ} {q q' : Queue Value} (i : ℕ) (st : Step Value capacity q q')
      → i ≢ actor Value st
      → q'.pc i ≡ q.pc i
  unfolding actor
  Step-other {q = q} i (load_tail j v e) ne = update_other q.pc j i _ ne
  Step-other {q = q} i (version_is_tail j t v e same) ne = update_other q.pc j i _ ne
  Step-other {q = q} i (version_is_not_tail j t v e other) ne = update_other q.pc j i _ ne
  Step-other {q = q} i (win_tail j t v e won) ne = update_other q.pc j i _ ne
  Step-other {q = q} i (lose_tail j t v e lost) ne = update_other q.pc j i _ ne
  Step-other {q = q} i (store_value j t v e) ne = update_other q.pc j i _ ne
  Step-other {q = q} i (publish j t e) ne = update_other q.pc j i _ ne
  Step-other {q = q} i (load_head j e) ne = update_other q.pc j i _ ne
  Step-other {q = q} i (version_is_next j h e same) ne = update_other q.pc j i _ ne
  Step-other {q = q} i (version_is_not_next j h e other) ne = update_other q.pc j i _ ne
  Step-other {q = q} i (win_head j h e won) ne = update_other q.pc j i _ ne
  Step-other {q = q} i (lose_head j h e lost) ne = update_other q.pc j i _ ne
  Step-other {q = q} i (load_value j h e) ne = update_other q.pc j i _ ne
  Step-other {q = q} i (release j h v e) ne = update_other q.pc j i _ ne

module _ (Value : Type 0) (capacity : ℕ) (two : 2 ≤ capacity) where
  -- The phase of a ticket that a step gives to another one stays.
  kept_phase :
      (q : Queue Value) (t u : ℕ) (p : Phase)
      → t ≢ u
      → q.phase t ≡ emptied
      → update q.phase u p t ≡ emptied
  kept_phase q t u p ne e = update_other q.phase u t p ne ∙ e

  -- A ticket that has been given back stays so.
  Step-emptied :
      {q q' : Queue Value} (t : ℕ)
      → Inv Value capacity q
      → q.phase t ≡ emptied
      → Step Value capacity q q'
      → q'.phase t ≡ emptied
  unfolding TicketOk ThreadOk IsWriting
  Step-emptied t inv e (load_tail j v at) = e
  Step-emptied t inv e (version_is_tail j u v at same) = e
  Step-emptied t inv e (version_is_not_tail j u v at other) = e
  Step-emptied {q} t inv e (win_tail j u v at won) =
      let gone = at_phase Value capacity q t emptied inv e in
      kept_phase q t u (writing j) (λ same. let s : t ≡ u = same in omega (arith, gone.1, won, s)) e
  Step-emptied t inv e (lose_tail j u v at lost) = e
  Step-emptied t inv e (store_value j u v at) = e
  Step-emptied {q} t inv e (publish j u at) =
      let mine = at_pc Value capacity q j _ inv at in
      kept_phase q t u full
        (λ same. subst (λ (p : Phase). IsWriting p) (sym mine.0 ∙ ap q.phase (sym same) ∙ e) tt) e
  Step-emptied t inv e (load_head j at) = e
  Step-emptied t inv e (version_is_next j h at same) = e
  Step-emptied t inv e (version_is_not_next j h at other) = e
  Step-emptied {q} t inv e (win_head j h at won) =
      let gone = at_phase Value capacity q t emptied inv e in
      kept_phase q t h (reading j) (λ same. omega (arith, gone.0, won, same)) e
  Step-emptied t inv e (lose_head j h at lost) = e
  Step-emptied t inv e (load_value j h at) = e
  Step-emptied {q} t inv e (release j h v at) = elim (Bool-cases (t == h)) [
    | inl same ↦ rw same refl
    | inr other ↦ rw other e
  ]

  -- Since thread i has loaded a value under ticket t, it has made no step, or it has given the ticket back.
  Waits : (q q' : Queue Value) → ℕ → ℕ → Value → Reach Value capacity q q' → Type 0
  Waits q q' i t v r = (IsStill Value i r × (q'.pc i ≡ value_loaded t v)) ⊎ (q'.phase t ≡ emptied)

  Reach-Waits :
      (junk blank : ℕ → Value) (q q' : Queue Value) (i t : ℕ) (v : Value)
      → Reach Value capacity (init Value junk blank) q
      → q.pc i ≡ value_loaded t v
      → (r : Reach Value capacity q q') → Waits q q' i t v r
  unfolding Waits IsStill Moves
  Reach-Waits junk blank q q' i t v before at here = inl (tt, at)
  Reach-Waits junk blank q q' i t v before at (then_step {q = mid} r st) =
      let inv =
        Reach-Inv Value capacity two junk blank (Reach-onward Value capacity two before r) in
      elim (Reach-Waits junk blank q mid i t v before at r) [
        | inl waits ↦ elim (Bool-cases (i == actor Value st)) [
          | inl mine ↦
              let by = sym ((==_iff i (actor Value st)).0 mine) in
              let m = Moves-of Value capacity st i (value_loaded t v) by waits.1 in
              inr (ap (λ (p : Queue Value). p.phase t) m ∙ update_here mid.phase t emptied)
          | inr other ↦
              let ne : i ≢ actor Value st = λ e. ground arith in
              inl ((waits.0, ne), Step-other Value i st ne ∙ waits.1)
        ]
        | inr gone ↦ inr (Step-emptied t inv gone st)
      ]

  -- On a queue of capacity two or more, a call of try_dequeue has won ticket t of the head and loaded a value under it.
  -- Whenever, then or later, a thread stands behind a load under ticket t, it is the thread of that call, which has
  -- made no step in between, so that it is still the same load.
  pub one_reader :
      (junk blank : ℕ → Value) (i j t : ℕ) (v w : Value) (q q' : Queue Value)
      → Reach Value capacity (init Value junk blank) q
      → q.pc i ≡ value_loaded t v
      → (r : Reach Value capacity q q') → q'.pc j ≡ value_loaded t w
      → (i ≡ j) × IsStill Value i r
  unfolding ThreadOk Waits IsReading
  one_reader junk blank i j t v w q q' before at r at' =
      let inv =
        Reach-Inv Value capacity two junk blank (Reach-onward Value capacity two before r) in
      let mine = at_pc Value capacity q' j (value_loaded t w) inv at' in
      elim (Reach-Waits junk blank q q' i t v before at r) [
        | inl waits ↦
            let his = at_pc Value capacity q' i (value_loaded t v) inv waits.1 in
            let e = sym his.0 ∙ mine.0 in (ground arith, waits.0)
        | inr gone ↦ absurd (subst (λ (p : Phase). IsReading p) (sym mine.0 ∙ gone) tt)
      ]
