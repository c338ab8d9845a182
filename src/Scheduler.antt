-- ===== src/Scheduler.antt =====
-- TaskScheduler of include/task.h and src/core/task.cpp: how submit_task spreads tasks over the rings
-- of the workers. `next_worker` is m_next_worker; the thread count is the length of the list.
pub mod Round
pub mod Submit
mod Tests
use ticktock.Prelude.{
  ℕ, zero, suc, ◌+◌, ◌%◌, ltb, Bool, true, false, if◌then◌else◌, Option, none, some, List, [], ◌∷◌,
  length, get_elem?, set, ℤ, pos, negsuc,
}
use ticktock.Ring.{Ring, try_enqueue}
use ticktock.Ring

pub record Scheduler (Task : Type 0) : Type 0 where
  pub workers : List (Ring Task)
  pub next_worker : ℕ

-- What a failed round of submit_task finds: the scheduler is to stop, or it spins while the workers go
-- on, which leaves other rings.
pub data Pause (Task : Type 0) : Type 0 where
  stop : Pause Task
  spin : (List (Ring Task) → List (Ring Task)) → Pause Task

module _ {Task : Type 0} (capacity : ℕ) where
  -- `m_workers[k]->m_tasks.try_enqueue(task)`. There is no worker behind the last.
  unfoldable pub offer : Task → ℕ → List (Ring Task) → Bool × List (Ring Task)
  offer task k workers = elim (get_elem? workers k) [
    | none ↦ (false, workers)
    | some ring ↦
        let (accepted, ring') = try_enqueue capacity task ring in (accepted, set workers k ring')
  ]

  unfoldable pub advance : Scheduler Task → Scheduler Task
  advance s = record s { next_worker = (s.next_worker + 1) % length s.workers }

  -- The inner loop of submit_task, with the workers still to be asked.
  unfoldable pub round : Task → ℕ → Scheduler Task → Option ℕ × Scheduler Task
  round task zero s = (none, s)
  round task (suc n) s =
      let (accepted, workers) = offer task s.next_worker s.workers in
      let s' = record s { workers = workers } in
      let rest = round task n (advance s') in if accepted then (some s.next_worker, s') else rest

  -- The body of the outer loop: the worker `id`, or all in turn.
  unfoldable pub attempt : Task → ℤ → Scheduler Task → Option ℕ × Scheduler Task
  attempt task (negsuc n) s = round task (length s.workers) s
  attempt task (pos id) s =
      let (accepted, workers) = offer task id s.workers in
      let s' = record s { workers = workers } in
      if ltb id (length s.workers)
      then ((if accepted then some id else none), s')
      else round task (length s.workers) s

  -- The outer loop, `none` while it still spins.
  unfoldable pub submit_loop :
      Task → ℤ → List (Pause Task) → Scheduler Task → Option (Option ℕ × Scheduler Task)
  submit_loop task id [] s =
      let (assignee, s') = attempt task id s in
      elim assignee [ none ↦ none | some k ↦ some (some k, advance s') ]
  submit_loop task id (stop ∷ pauses) s =
      let (assignee, s') = attempt task id s in some (assignee, advance s')
  submit_loop task id (spin f ∷ pauses) s =
      let (assignee, s') = attempt task id s in
      let rest = submit_loop task id pauses (record s' { workers = f s'.workers }) in
      elim assignee [ none ↦ rest | some k ↦ some (some k, advance s') ]

  -- submit_task, `requested` when the scheduler has been told to shut down before.
  unfoldable pub submit_task :
      Bool → Task → ℤ → List (Pause Task) → Scheduler Task → Option (Option ℕ × Scheduler Task)
  submit_task requested task id pauses s =
      if requested then some (none, s) else submit_loop task id pauses s

  -- The total that get_pending_task_count returns, and the counts of the workers.
  unfoldable pub get_pending_task_count : List (Ring Task) → ℕ × List ℕ
  get_pending_task_count [] = (0, [])
  get_pending_task_count (ring ∷ rings) =
      let count = Ring.size capacity ring in
      let (total, counts) = get_pending_task_count rings in (count + total, count ∷ counts)
