-- ===== src/Queue/Alone.antt =====
-- What a thread can do from where it stands, and what it comes to when it runs alone.
use ticktock.Prelude.{ℕ, ◌+◌, ◌%◌, ◌≡◌, ◌≢◌, ◌⊎◌, inl, inr, refl, sym, subst}
use ticktock.Queue.{
  update, writing, full, reading, emptied, Pc, idle, tail_loaded, tail_ready, tail_won,
  value_stored, head_loaded, head_ready, head_won, value_loaded, Queue, goto, Step, load_tail,
  version_is_tail, version_is_not_tail, win_tail, lose_tail, store_value, publish, load_head,
  version_is_next, version_is_not_next, win_head, lose_head, load_value, release,
}

module _ (Value : Type 0) where
  -- The thread of a step.
  unfoldable pub actor : {capacity : ℕ} {q q' : Queue Value} → Step Value capacity q q' → ℕ
  actor (load_tail j v e) = j
  actor (version_is_tail j t v e same) = j
  actor (version_is_not_tail j t v e other) = j
  actor (win_tail j t v e won) = j
  actor (lose_tail j t v e lost) = j
  actor (store_value j t v e) = j
  actor (publish j t e) = j
  actor (load_head j e) = j
  actor (version_is_next j h e same) = j
  actor (version_is_not_next j h e other) = j
  actor (win_head j h e won) = j
  actor (lose_head j h e lost) = j
  actor (load_value j h e) = j
  actor (release j h v e) = j

module _ (Value : Type 0) (capacity : ℕ) where
  abbrev pub after_win_tail : Queue Value → ℕ → ℕ → Value → Queue Value
  after_win_tail q j t v = record q {
    tail = t + 1;
    pc = update q.pc j (tail_won t v);
    log = update q.log t v;
    phase = update q.phase t (writing j);
  }

  abbrev pub after_store_value : Queue Value → ℕ → ℕ → Value → Queue Value
  after_store_value q j t v = record q {
    value = update q.value (t % capacity) v;
    pc = update q.pc j (value_stored t);
  }

  abbrev pub after_publish : Queue Value → ℕ → ℕ → Queue Value
  after_publish q j t = record q {
    version = update q.version (t % capacity) (t + 1);
    pc = update q.pc j idle;
    phase = update q.phase t full;
  }

  abbrev pub after_win_head : Queue Value → ℕ → ℕ → Queue Value
  after_win_head q j h = record q {
    head = h + 1;
    pc = update q.pc j (head_won h);
    phase = update q.phase h (reading j);
  }

  abbrev pub after_release : Queue Value → ℕ → ℕ → Queue Value
  after_release q j h = record q {
    version = update q.version (h % capacity) (h + capacity);
    pc = update q.pc j idle;
    phase = update q.phase h emptied;
  }

  -- What a step of thread j makes of q when it stands at a place.
  unfoldable pub Moves : Queue Value → ℕ → Pc Value → Queue Value → Type 0
  Moves q j idle q' = Unit {0}
  Moves q j (tail_loaded t v) q' =
      ((q.version (t % capacity) ≡ t) × (q' ≡ goto Value q j (tail_ready t v)))
      ⊎ ((q.version (t % capacity) ≢ t) × (q' ≡ goto Value q j idle))
  Moves q j (tail_ready t v) q' =
      ((q.tail ≡ t) × (q' ≡ after_win_tail q j t v)) ⊎ ((q.tail ≢ t) × (q' ≡ goto Value q j idle))
  Moves q j (tail_won t v) q' = q' ≡ after_store_value q j t v
  Moves q j (value_stored t) q' = q' ≡ after_publish q j t
  Moves q j (head_loaded h) q' =
      ((q.version (h % capacity) ≡ h + 1) × (q' ≡ goto Value q j (head_ready h)))
      ⊎ ((q.version (h % capacity) ≢ h + 1) × (q' ≡ goto Value q j idle))
  Moves q j (head_ready h) q' =
      ((q.head ≡ h) × (q' ≡ after_win_head q j h)) ⊎ ((q.head ≢ h) × (q' ≡ goto Value q j idle))
  Moves q j (head_won h) q' = q' ≡ goto Value q j (value_loaded h (q.value (h % capacity)))
  Moves q j (value_loaded h v) q' = q' ≡ after_release q j h

  pub Step-Moves :
      {q q' : Queue Value} (st : Step Value capacity q q')
      → Moves q (actor Value st) (q.pc (actor Value st)) q'
  unfolding Moves actor
  Step-Moves (load_tail j v e) = rw e tt
  Step-Moves (version_is_tail j t v e same) = rw e (inl (same, refl))
  Step-Moves (version_is_not_tail j t v e other) = rw e (inr (other, refl))
  Step-Moves (win_tail j t v e won) = rw e (inl (won, refl))
  Step-Moves (lose_tail j t v e lost) = rw e (inr (lost, refl))
  Step-Moves (store_value j t v e) = rw e refl
  Step-Moves (publish j t e) = rw e refl
  Step-Moves (load_head j e) = rw e tt
  Step-Moves (version_is_next j h e same) = rw e (inl (same, refl))
  Step-Moves (version_is_not_next j h e other) = rw e (inr (other, refl))
  Step-Moves (win_head j h e won) = rw e (inl (won, refl))
  Step-Moves (lose_head j h e lost) = rw e (inr (lost, refl))
  Step-Moves (load_value j h e) = rw e refl
  Step-Moves (release j h v e) = rw e refl

  pub Moves-of :
      {q q' : Queue Value} (st : Step Value capacity q q') (j : ℕ) (p : Pc Value)
      → actor Value st ≡ j
      → q.pc j ≡ p
      → Moves q j p q'
  Moves-of {q} {q'} st j p by at =
      subst (λ (p : Pc Value). Moves q j p q') at
        (subst (λ (i : ℕ). Moves q i (q.pc i) q') by (Step-Moves st))

  -- Thread j has a step, and whatever steps it takes alone, it comes to a state in Goal.
  pub data Inevitable (j : ℕ) (Goal : Queue Value → Type 0) : Queue Value → Type 0 where
    reached : {q : Queue Value} → Goal q → Inevitable j Goal q
    onward :
        {q : Queue Value} (q' : Queue Value) (st : Step Value capacity q q')
        → actor Value st ≡ j
        → ((q'' : Queue Value) (st' : Step Value capacity q q'')
            → actor Value st' ≡ j
            → Inevitable j Goal q'')
        → Inevitable j Goal q

  -- A step that has no alternative.
  pub forced :
      (j : ℕ) (Goal : Queue Value → Type 0) (q q' : Queue Value) (st : Step Value capacity q q')
      → actor Value st ≡ j
      → ((q'' : Queue Value) (st' : Step Value capacity q q'') → actor Value st' ≡ j → q'' ≡ q')
      → Inevitable j Goal q'
      → Inevitable j Goal q
  forced j Goal q q' st by only rest = onward q' st by (λ q'' st' by'.
      subst (λ (p : Queue Value). Inevitable j Goal p) (sym (only q'' st' by')) rest)
