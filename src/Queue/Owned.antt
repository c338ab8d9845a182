-- ===== src/Queue/Owned.antt =====
-- The tickets that a call has won and not given back are known from where its thread stands.
use ticktock.Prelude.{
  ℕ, ◌%◌, ◌≡◌, ◌≢◌, refl, sym, ap, ◌∙◌, subst, arith, inl, inr, Bool-cases, ◌==◌, ==_iff,
}
use ticktock.Queue.{
  update, Phase, free, writing, full, reading, emptied, Pc, idle, tail_loaded, tail_ready, tail_won,
  value_stored, head_loaded, head_ready, head_won, value_loaded, Queue, init, Step, load_tail,
  version_is_tail, version_is_not_tail, win_tail, lose_tail, store_value, publish, load_head,
  version_is_next, version_is_not_next, win_head, lose_head, load_value, release, Reach, here,
  then_step,
}

pub update_here : {A : Type 0} (f : ℕ → A) (k : ℕ) (a : A) → update f k a k ≡ a
update_here f k a = ground arith

module _ (Value : Type 0) where
  -- The thread is in a call that won ticket t and has not given it back.
  unfoldable pub Writing : ℕ → Pc Value → Type 0
  Writing t idle = ⊥
  Writing t (tail_loaded u v) = ⊥
  Writing t (tail_ready u v) = ⊥
  Writing t (tail_won u v) = u ≡ t
  Writing t (value_stored u) = u ≡ t
  Writing t (head_loaded u) = ⊥
  Writing t (head_ready u) = ⊥
  Writing t (head_won u) = ⊥
  Writing t (value_loaded u v) = ⊥

  unfoldable pub Reading : ℕ → Pc Value → Type 0
  Reading t idle = ⊥
  Reading t (tail_loaded u v) = ⊥
  Reading t (tail_ready u v) = ⊥
  Reading t (tail_won u v) = ⊥
  Reading t (value_stored u) = ⊥
  Reading t (head_loaded u) = ⊥
  Reading t (head_ready u) = ⊥
  Reading t (head_won u) = u ≡ t
  Reading t (value_loaded u v) = u ≡ t

  unfoldable pub Owned : (ℕ → Pc Value) → ℕ → Phase → Type 0
  Owned pcs t free = Unit {0}
  Owned pcs t (writing i) = Writing t (pcs i)
  Owned pcs t full = Unit {0}
  Owned pcs t (reading i) = Reading t (pcs i)
  Owned pcs t emptied = Unit {0}

  unfoldable pub AllOwned : Queue Value → Type 0
  AllOwned q = (t : ℕ) → Owned q.pc t (q.phase t)

  -- A thread moves on and keeps the tickets that it holds.
  move-Owned :
      (pcs : ℕ → Pc Value) (j : ℕ) (p p' : Pc Value) (t : ℕ) (ph : Phase)
      → pcs j ≡ p
      → (Writing t p → Writing t p')
      → (Reading t p → Reading t p')
      → Owned pcs t ph
      → Owned (update pcs j p') t ph
  unfolding Owned
  move-Owned pcs j p p' t free e w r h = tt
  move-Owned pcs j p p' t (writing i) e w r h = elim (Bool-cases (i == j)) [
    | inl same ↦
        let i_is_j : i ≡ j = (==_iff i j).0 same in
        rw same (w (subst (λ (c : Pc Value). Writing t c) (ap pcs i_is_j ∙ e) h))
    | inr other ↦ rw other h
  ]
  move-Owned pcs j p p' t full e w r h = tt
  move-Owned pcs j p p' t (reading i) e w r h = elim (Bool-cases (i == j)) [
    | inl same ↦
        let i_is_j : i ≡ j = (==_iff i j).0 same in
        rw same (r (subst (λ (c : Pc Value). Reading t c) (ap pcs i_is_j ∙ e) h))
    | inr other ↦ rw other h
  ]
  move-Owned pcs j p p' t emptied e w r h = tt

  -- The ticket of a step gets a new phase.
  phase-Owned :
      (pcs : ℕ → Pc Value) (phases : ℕ → Phase) (t u : ℕ) (ph : Phase)
      → Owned pcs t ph
      → (u ≢ t → Owned pcs u (phases u))
      → Owned pcs u (update phases t ph u)
  phase-Owned pcs phases t u ph own rest = elim (Bool-cases (u == t)) [
    | inl same ↦
        let u_is_t : u ≡ t = (==_iff u t).0 same in
        rw same (subst (λ (k : ℕ). Owned pcs k ph) (sym u_is_t) own)
    | inr other ↦ rw other (rest (λ e. ground arith))
  ]

  Step-AllOwned :
      {capacity : ℕ} {q q' : Queue Value} → Step Value capacity q q' → AllOwned q → AllOwned q'
  unfolding AllOwned Writing Reading Owned
  Step-AllOwned {q} (load_tail j v e) o = λ u.
      move-Owned q.pc j idle (tail_loaded q.tail v) u (q.phase u) e (λ w. absurd w) (λ r. absurd r)
        (o u)
  Step-AllOwned {q} (version_is_tail j t v e same) o = λ u.
      move-Owned q.pc j (tail_loaded t v) (tail_ready t v) u (q.phase u) e (λ w. absurd w)
        (λ r. absurd r) (o u)
  Step-AllOwned {q} (version_is_not_tail j t v e other) o = λ u.
      move-Owned q.pc j (tail_loaded t v) idle u (q.phase u) e (λ w. absurd w) (λ r. absurd r) (o u)
  Step-AllOwned {q} (win_tail j t v e won) o = λ u.
      phase-Owned (update q.pc j (tail_won t v)) q.phase t u (writing j)
        (subst (λ (c : Pc Value). Writing t c) (sym (update_here q.pc j (tail_won t v))) refl)
        (λ ne.
          move-Owned q.pc j (tail_ready t v) (tail_won t v) u (q.phase u) e (λ w. absurd w)
            (λ r. absurd r) (o u))
  Step-AllOwned {q} (lose_tail j t v e lost) o = λ u.
      move-Owned q.pc j (tail_ready t v) idle u (q.phase u) e (λ w. absurd w) (λ r. absurd r) (o u)
  Step-AllOwned {q} (store_value j t v e) o = λ u.
      move-Owned q.pc j (tail_won t v) (value_stored t) u (q.phase u) e (λ w. w) (λ r. absurd r)
        (o u)
  Step-AllOwned {q} (publish j t e) o = λ u.
      phase-Owned (update q.pc j idle) q.phase t u full tt (λ ne.
        move-Owned q.pc j (value_stored t) idle u (q.phase u) e (λ w. absurd (ne (sym w)))
          (λ r. absurd r) (o u))
  Step-AllOwned {q} (load_head j e) o = λ u.
      move-Owned q.pc j idle (head_loaded q.head) u (q.phase u) e (λ w. absurd w) (λ r. absurd r)
        (o u)
  Step-AllOwned {q} (version_is_next j h e same) o = λ u.
      move-Owned q.pc j (head_loaded h) (head_ready h) u (q.phase u) e (λ w. absurd w)
        (λ r. absurd r) (o u)
  Step-AllOwned {q} (version_is_not_next j h e other) o = λ u.
      move-Owned q.pc j (head_loaded h) idle u (q.phase u) e (λ w. absurd w) (λ r. absurd r) (o u)
  Step-AllOwned {q} (win_head j h e won) o = λ u.
      phase-Owned (update q.pc j (head_won h)) q.phase h u (reading j)
        (subst (λ (c : Pc Value). Reading h c) (sym (update_here q.pc j (head_won h))) refl)
        (λ ne.
          move-Owned q.pc j (head_ready h) (head_won h) u (q.phase u) e (λ w. absurd w)
            (λ r. absurd r) (o u))
  Step-AllOwned {q} (lose_head j h e lost) o = λ u.
      move-Owned q.pc j (head_ready h) idle u (q.phase u) e (λ w. absurd w) (λ r. absurd r) (o u)
  Step-AllOwned {capacity} {q} (load_value j h e) o = λ u.
      move-Owned q.pc j (head_won h) (value_loaded h (q.value (h % capacity))) u (q.phase u) e
        (λ w. absurd w) (λ r. r) (o u)
  Step-AllOwned {q} (release j h v e) o = λ u.
      phase-Owned (update q.pc j idle) q.phase h u emptied tt (λ ne.
        move-Owned q.pc j (value_loaded h v) idle u (q.phase u) e (λ w. absurd w)
          (λ r. absurd (ne (sym r))) (o u))

  pub Reach-AllOwned :
      {capacity : ℕ} (junk blank : ℕ → Value) {q : Queue Value}
      → Reach Value capacity (init Value junk blank) q
      → AllOwned q
  unfolding AllOwned init Owned
  Reach-AllOwned junk blank here = λ t. tt
  Reach-AllOwned junk blank (then_step r st) = Step-AllOwned st (Reach-AllOwned junk blank r)
