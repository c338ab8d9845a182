-- ===== src/Scheduler/Submit.antt =====
-- When submit_task returns, and what it leaves in the rings.
use ticktock.Prelude.{
  ℕ, zero, suc, ◌+◌, ◌-◌, ◌%◌, ◌^◌, ◌<◌, ◌≤◌, ◌≡◌, refl, sym, ap, subst, ◌∙◌, arith, inl, inr,
  Bool-cases, ltb, ltb→lt, Bool, true, false, Option, none, some, List, [], ◌∷◌, length, get_elem?,
  set, negsuc,
}
use mathlib.Core.Option.{some_inj, none-ne-some}
use native.Mathlib.Nat.{mod-lt, mod-eq_of_lt, add-mod_right}
use ticktock.Ring.{Ring, size, try_enqueue}
use ticktock.Ring.Refine.{accepted_size}
use ticktock.Ring.Window.{IsValid}
use ticktock.Scheduler.{
  Scheduler, Pause, stop, spin, offer, advance, round, attempt, submit_loop, submit_task,
  get_pending_task_count,
}
use ticktock.Scheduler.Round.{Refuses, RoundOutcome, round-RoundOutcome}

-- A round over c workers from worker n comes to each worker k.
visits : (c n k : ℕ) → n < c → k < c → (i : ℕ) × (i < c) × ((n + i) % c ≡ k)
visits c n k ln lk = elim (Bool-cases (ltb k n)) [
  | inl behind ↦
      let l : k < n = ltb→lt k n behind in
      let e : n + (k + c - n) ≡ k + c = omega arith in
      (k + c - n, omega arith, ap (λ (m : ℕ). m % c) e ∙ add-mod_right k c ∙ mod-eq_of_lt lk)
  | inr ahead ↦
      let l : n ≤ k = ground arith in
      let e : n + (k - n) ≡ k = omega arith in
      (k - n, omega arith, ap (λ (m : ℕ). m % c) e ∙ mod-eq_of_lt lk)
]

module _ {Task : Type 0} (capacity : ℕ) (task : Task) where
  -- After a round over all workers that none accepted, every worker refuses.
  all_refuse :
      (s s' : Scheduler Task) (k : ℕ)
      → s.next_worker < length s.workers
      → RoundOutcome capacity task (length s.workers) s none s'
      → k < length s.workers
      → Refuses capacity task s.workers k
  unfolding RoundOutcome
  all_refuse s s' k lt out lk =
      let (i, l, e) = visits (length s.workers) s.next_worker k lt lk in
      subst (λ (w : ℕ). Refuses capacity task s.workers w) e (out.0 i l)

  attempt_done :
      (m a : ℕ) (s s' : Scheduler Task) (pauses : List (Pause Task))
      → attempt capacity task (negsuc m) s ≡ (some a, s')
      → submit_loop capacity task (negsuc m) pauses s ≡ some (some a, advance capacity s')
  unfolding submit_loop
  attempt_done m a s s' pauses e = by_pauses pauses
    where
      done : Option ℕ × Scheduler Task → Option (Option ℕ × Scheduler Task)
      done p = some (some a, advance capacity p.1)

      first : (attempt capacity task (negsuc m) s).0 ≡ some a
      first = ap (λ (p : Option ℕ × Scheduler Task). p.0) e

      after : done (attempt capacity task (negsuc m) s) ≡ done (some a, s')
      after = ap done e

      by_pauses :
          (ps : List (Pause Task))
          → submit_loop capacity task (negsuc m) ps s ≡ some (some a, advance capacity s')
      by_pauses [] = rw (first, submit_loop) after
      by_pauses (stop ∷ ps) = rw (first, submit_loop) after
      by_pauses (spin f ∷ ps) = rw (first, submit_loop) after

  -- When the scheduler is not told to stop, m_next_worker is a worker, and some worker k has room for the task,
  -- a call of submit_task without a worker's id returns in its first round, whatever happens later. It returns a worker
  -- whose ring has taken the task, the other rings are as they were, and m_next_worker points behind that worker.
  pub submit_task-offer :
      (m k : ℕ) (s : Scheduler Task) (pauses : List (Pause Task))
      → s.next_worker < length s.workers
      → k < length s.workers
      → (offer capacity task k s.workers).0 ≡ true
      → (a : ℕ) × (s' : Scheduler Task) × (submit_task capacity false task (negsuc m) pauses s
          ≡ some (some a, s'))
        × (offer capacity task a s.workers ≡ (true, s'.workers))
        × (s'.next_worker ≡ (a + 1) % length s'.workers)
  unfolding submit_task attempt RoundOutcome Refuses advance
  submit_task-offer m k s pauses lt lk room =
      by_result (round capacity task (length s.workers) s).0
        (round capacity task (length s.workers) s).1 refl
        (round-RoundOutcome capacity task (length s.workers) s lt)
    where
      by_result :
          (o : Option ℕ) (s1 : Scheduler Task)
          → round capacity task (length s.workers) s ≡ (o, s1)
          → RoundOutcome capacity task (length s.workers) s o s1
          → (a : ℕ) × (s' : Scheduler Task) × (submit_task capacity false task (negsuc m) pauses s
              ≡ some (some a, s'))
            × (offer capacity task a s.workers ≡ (true, s'.workers))
            × (s'.next_worker ≡ (a + 1) % length s'.workers)
      by_result none s1 e out = absurd (let r = all_refuse s s1 k lt out lk in ground arith)
      by_result (some a) s1 e out = (
        a,
        advance capacity s1,
        attempt_done m a s s1 pauses e,
        out.0,
        ap (λ (n : ℕ). (n + 1) % length s1.workers) out.1,
      )

  -- When m_next_worker is a worker, every worker's ring is full, and the scheduler is told to stop after the first
  -- round, a call of submit_task without a worker's id gives up: it returns no worker, and all rings are as they were.
  pub submit_task-stop :
      (m : ℕ) (s : Scheduler Task) (pauses : List (Pause Task))
      → s.next_worker < length s.workers
      → ((k : ℕ) → k < length s.workers → Refuses capacity task s.workers k)
      → (s' : Scheduler Task) × (submit_task capacity false task (negsuc m) (stop ∷ pauses) s
          ≡ some (none, s'))
        × (s'.workers ≡ s.workers)
  unfolding submit_task submit_loop attempt RoundOutcome Refuses advance
  submit_task-stop m s pauses lt full =
      by_result (round capacity task (length s.workers) s).0
        (round capacity task (length s.workers) s).1 refl
        (round-RoundOutcome capacity task (length s.workers) s lt)
    where
      by_result :
          (o : Option ℕ) (s1 : Scheduler Task)
          → round capacity task (length s.workers) s ≡ (o, s1)
          → RoundOutcome capacity task (length s.workers) s o s1
          → (s' : Scheduler Task) × (submit_task capacity false task (negsuc m) (stop ∷ pauses) s
              ≡ some (none, s'))
            × (s'.workers ≡ s.workers)
      by_result none s1 e out = (
        advance capacity s1,
        ap (λ (p : Option ℕ × Scheduler Task). some (p.0, advance capacity p.1)) e,
        out.1,
      )
      by_result (some a) s1 e out =
          let (i, below, at, before) = out.2 in
          let l : a < length s.workers =
            subst (λ (w : ℕ). w < length s.workers) (sym at)
              (mod-lt (s.next_worker + i) (omega arith)) in
          let refused = full a l in
          let taken = ap (λ (p : Bool × List (Ring Task)). p.0) out.0 in absurd (ground arith)

module _ {Task : Type 0} (capacity : ℕ) where
  -- The rings of all workers are in use.
  unfoldable pub AllValid : List (Ring Task) → Type 0
  AllValid workers =
      (k : ℕ) (ring : Ring Task) → get_elem? workers k ≡ some ring → IsValid capacity ring

  pending : List (Ring Task) → ℕ
  pending workers = (get_pending_task_count capacity workers).0

  -- One ring of the list is replaced by one that holds a task more.
  pending-set :
      (workers : List (Ring Task)) (k : ℕ) (ring ring' : Ring Task)
      → get_elem? workers k ≡ some ring
      → size capacity ring' ≡ size capacity ring + 1
      → pending (set workers k ring') ≡ pending workers + 1
  unfolding pending get_pending_task_count
  pending-set [] k ring ring' at more = absurd (none-ne-some ring at)
  pending-set (r ∷ rs) zero ring ring' at more =
      let same = some_inj.0 at in
      let e = ap (λ (x : Ring Task). size capacity x) same in omega (arith, e, more)
  pending-set (r ∷ rs) (suc k) ring ring' at more =
      omega (arith, pending-set rs k ring ring' at more)

  -- When the rings of all workers have counters that are slots, and a capacity of at most 2^31, and worker k takes a task,
  -- the total of get_pending_task_count has grown by one.
  pub pending-offer :
      (task : Task) (k : ℕ) (workers workers' : List (Ring Task))
      → AllValid workers
      → capacity ≤ 2 ^ 31
      → offer capacity task k workers ≡ (true, workers')
      → (get_pending_task_count capacity workers').0
        ≡ (get_pending_task_count capacity workers).0 + 1
  unfolding offer AllValid pending
  pending-offer task k workers workers' valid small e = by_ring (get_elem? workers k) refl e
    where
      answer : Option (Ring Task) → Bool × List (Ring Task)
      answer none = (false, workers)
      answer (some ring) =
          ((try_enqueue capacity task ring).0, set workers k (try_enqueue capacity task ring).1)

      by_ring :
          (o : Option (Ring Task))
          → get_elem? workers k ≡ o
          → answer o ≡ (true, workers')
          → pending workers' ≡ pending workers + 1
      by_ring none at e =
          absurd (let f = ap (λ (p : Bool × List (Ring Task)). p.0) e in ground arith)
      by_ring (some ring) at e =
          let f = ap (λ (p : Bool × List (Ring Task)). p.0) e in
          sym (ap (λ (p : Bool × List (Ring Task)). pending p.1) e)
          ∙ pending-set workers k ring (try_enqueue capacity task ring).1 at
              (accepted_size capacity task ring (valid k ring at) small f)
