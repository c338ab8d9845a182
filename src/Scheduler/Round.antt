-- ===== src/Scheduler/Round.antt =====
-- One round of submit_task: whom it asks, and who takes the task.
use ticktock.Prelude.{
  ℕ, zero, suc, ◌+◌, ◌%◌, ◌<◌, ◌≡◌, refl, sym, ap, subst, ◌∙◌, arith, inl, inr, Bool-cases, Bool,
  true, false, Option, none, some, List, [], ◌∷◌, length, get_elem?, set,
}
use mathlib.Core.Option.{some_inj}
use native.Mathlib.Nat.{mod-lt, mod-eq_of_lt, mod-add-mod}
use ticktock.Ring.{Ring, try_enqueue}
use ticktock.Ring.Refine.{refused_ring}
use ticktock.Scheduler.{Scheduler, offer, advance, round}

-- Writing back what stands at an index changes nothing.
module _ {A : Type 0} where
  set_same : (xs : List A) (k : ℕ) (a : A) → get_elem? xs k ≡ some a → set xs k a ≡ xs
  set_same [] k a e = refl
  set_same (x ∷ xs) zero a e = ap (λ (y : A). y ∷ xs) (sym (some_inj.0 e))
  set_same (x ∷ xs) (suc k) a e = ap (λ (ys : List A). x ∷ ys) (set_same xs k a e)

module _ {Task : Type 0} (capacity : ℕ) (task : Task) where
  -- Worker k has no room for the task.
  unfoldable pub Refuses : List (Ring Task) → ℕ → Type 0
  Refuses workers k = (offer capacity task k workers).0 ≡ false

  -- A worker that refuses keeps its ring.
  pub Refuses-same :
      (workers : List (Ring Task)) (k : ℕ)
      → Refuses workers k
      → (offer capacity task k workers).1 ≡ workers
  unfolding Refuses offer
  Refuses-same workers k e = by_ring (get_elem? workers k) refl e
    where
      answer : Option (Ring Task) → Bool × List (Ring Task)
      answer none = (false, workers)
      answer (some ring) =
          ((try_enqueue capacity task ring).0, set workers k (try_enqueue capacity task ring).1)

      by_ring :
          (o : Option (Ring Task))
          → get_elem? workers k ≡ o
          → (answer o).0 ≡ false
          → (answer o).1 ≡ workers
      by_ring none at e = refl
      by_ring (some ring) at e =
          ap (λ (r : Ring Task). set workers k r) (refused_ring capacity task ring e)
          ∙ set_same workers k ring at

  -- What a round that may ask n workers leaves: either each of them refused and only m_next_worker has moved,
  -- or one took the task, after those before it refused.
  unfoldable pub RoundOutcome : ℕ → Scheduler Task → Option ℕ → Scheduler Task → Type 0
  RoundOutcome n s none s' =
      ((i : ℕ) → i < n → Refuses s.workers ((s.next_worker + i) % length s.workers))
      × (s'.workers ≡ s.workers)
      × (s'.next_worker ≡ (s.next_worker + n) % length s.workers)
  RoundOutcome n s (some k) s' =
      (offer capacity task k s.workers ≡ (true, s'.workers))
      × (s'.next_worker ≡ k)
      × ((i : ℕ) × (i < n)
          × (k ≡ (s.next_worker + i) % length s.workers)
          × ((j : ℕ) → j < i → Refuses s.workers ((s.next_worker + j) % length s.workers)))

  -- The round goes on behind a worker that refuses.
  refused_round :
      (n : ℕ) (s : Scheduler Task)
      → Refuses s.workers s.next_worker
      → round capacity task (suc n) s ≡ round capacity task n (advance capacity s)
  unfolding round Refuses advance
  refused_round n s e =
      let same = Refuses-same s.workers s.next_worker e in
      rw e (
        ap
          (λ (ws : List (Ring Task)).
            round capacity task n
              (record s { workers = ws; next_worker = (s.next_worker + 1) % length ws }))
          same)

  taken_round :
      (n : ℕ) (s : Scheduler Task)
      → (offer capacity task s.next_worker s.workers).0 ≡ true
      → round capacity task (suc n) s ≡ (
        some s.next_worker,
        record s { workers = (offer capacity task s.next_worker s.workers).1 },
      )
  unfolding round
  taken_round n s e = rw e refl

  onward : (c k i : ℕ) → ((k + 1) % c + i) % c ≡ (k + suc i) % c
  onward c k i = mod-add-mod (k + 1) c i ∙ ap (λ (n : ℕ). n % c) (omega arith)

  here_first : (c k : ℕ) → k < c → (k + 0) % c ≡ k
  here_first c k lt = ap (λ (n : ℕ). n % c) (omega arith) ∙ mod-eq_of_lt lt

  -- The refusals from m_next_worker on, one more than from the worker behind it.
  more_refusals :
      (s : Scheduler Task) (n : ℕ)
      → s.next_worker < length s.workers
      → Refuses s.workers s.next_worker
      → ((i : ℕ)
          → i < n
          → Refuses s.workers (((s.next_worker + 1) % length s.workers + i) % length s.workers))
      → (i : ℕ) → i < suc n
      → Refuses s.workers ((s.next_worker + i) % length s.workers)
  more_refusals s n lt own rest zero l =
      subst (λ (k : ℕ). Refuses s.workers k) (sym (here_first (length s.workers) s.next_worker lt))
        own
  more_refusals s n lt own rest (suc i) l =
      subst (λ (k : ℕ). Refuses s.workers k) (onward (length s.workers) s.next_worker i)
        (rest i (omega arith))

  advance-below :
      (s : Scheduler Task)
      → s.next_worker < length s.workers
      → (advance capacity s).next_worker < length (advance capacity s).workers
  unfolding advance
  advance-below s lt = mod-lt (s.next_worker + 1) (omega arith)

  one_more :
      (n : ℕ) (s : Scheduler Task) (o : Option ℕ) (s' : Scheduler Task)
      → s.next_worker < length s.workers
      → Refuses s.workers s.next_worker
      → RoundOutcome n (advance capacity s) o s'
      → RoundOutcome (suc n) s o s'
  unfolding RoundOutcome advance
  one_more n s none s' lt own out =
      (more_refusals s n lt own out.0, out.1, out.2 ∙ onward (length s.workers) s.next_worker n)
  one_more n s (some k) s' lt own out =
      let (i, below, at, refusals) = out.2 in
      (
        out.0,
        out.1,
        (
          suc i,
          omega arith,
          at ∙ onward (length s.workers) s.next_worker i,
          more_refusals s i lt own refusals,
        ),
      )

  -- When m_next_worker is a worker, the inner loop of submit_task ends in one of two ways: each of the n
  -- workers that it asks, m_next_worker and those behind it in turn, refuses, and then no ring
  -- has changed; or it gives the first of them that accepts, whose ring alone has
  -- changed, and to which m_next_worker now points.
  pub round-RoundOutcome :
      (n : ℕ) (s : Scheduler Task)
      → s.next_worker < length s.workers
      → let (o, s') = round capacity task n s in RoundOutcome n s o s'
  unfolding round RoundOutcome Refuses
  round-RoundOutcome zero s lt =
      (λ i l. absurd (omega arith), refl, sym (here_first (length s.workers) s.next_worker lt))
  round-RoundOutcome (suc n) s lt =
      elim (Bool-cases (offer capacity task s.next_worker s.workers).0) [
        | inl taken ↦
            subst (λ (p : Option ℕ × Scheduler Task). RoundOutcome (suc n) s p.0 p.1)
              (sym (taken_round n s taken))
              (
                ap (λ (b : Bool). (b, (offer capacity task s.next_worker s.workers).1)) taken,
                refl,
                (
                  0,
                  omega arith,
                  sym (here_first (length s.workers) s.next_worker lt),
                  λ j l. absurd (omega arith),
                ),
              )
        | inr refused ↦
            let rest = round-RoundOutcome n (advance capacity s) (advance-below s lt) in
            subst (λ (p : Option ℕ × Scheduler Task). RoundOutcome (suc n) s p.0 p.1)
              (sym (refused_round n s refused))
              (one_more n s (round capacity task n (advance capacity s)).0
                (round capacity task n (advance capacity s)).1 lt refused rest)
      ]
