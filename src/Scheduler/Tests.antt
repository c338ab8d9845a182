-- ===== src/Scheduler/Tests.antt =====
-- Runs of a scheduler of two workers, whose rings of three slots hold two tasks and none.
use ticktock.Prelude.{
  ℕ, zero, suc, ◌+◌, ◌%◌, ◌<◌, ◌≡◌, refl, arith, true, false, some, none, List, [], ◌∷◌, length,
  negsuc,
}
use mathlib.Core.Option.{some_inj, none-ne-some}
use ticktock.Ring.{Ring, size, try_enqueue}
use ticktock.Ring.Window.{IsValid}
use ticktock.Scheduler.{Scheduler, offer, advance, stop, round, submit_task, get_pending_task_count}
use ticktock.Scheduler.Round.{Refuses, RoundOutcome, round-RoundOutcome}
use ticktock.Scheduler.Submit.{AllValid, submit_task-offer, submit_task-stop}

abbrev zeros : ℕ → ℕ
zeros i = 0

abbrev busy : Ring ℕ
busy = record { head = 1; tail = 0; items = zeros }

abbrev at_rest : Ring ℕ
at_rest = record { head = 0; tail = 0; items = zeros }

abbrev two_workers : Scheduler ℕ
two_workers = record { workers = busy ∷ at_rest ∷ []; next_worker = 0 }

two_are_pending : (get_pending_task_count 3 two_workers.workers).0 ≡ 2
unfolding get_pending_task_count size
two_are_pending = refl

goes_to_the_second : (round 3 9 2 two_workers).0 ≡ some 1
unfolding round offer try_enqueue advance
goes_to_the_second = refl

round-RoundOutcome_example :
    RoundOutcome 3 9 2 two_workers (round 3 9 2 two_workers).0 (round 3 9 2 two_workers).1
round-RoundOutcome_example = round-RoundOutcome 3 9 2 two_workers (omega arith)

submit_task-offer_example :
    (a : ℕ) × (s' : Scheduler ℕ) × (submit_task 3 false 9 (negsuc 0) [] two_workers
      ≡ some (some a, s'))
    × (offer 3 9 a two_workers.workers ≡ (true, s'.workers))
    × (s'.next_worker ≡ (a + 1) % length s'.workers)
unfolding offer try_enqueue
submit_task-offer_example =
    submit_task-offer 3 9 0 1 two_workers [] (omega arith) (omega arith) refl

abbrev after : List (Ring ℕ)
after = (offer 3 9 1 two_workers.workers).1

both_valid : AllValid 3 two_workers.workers
unfolding AllValid IsValid
both_valid zero ring e = let same = some_inj.0 e in ground arith
both_valid (suc zero) ring e = let same = some_inj.0 e in ground arith
both_valid (suc (suc k)) ring e = absurd (none-ne-some ring e)

abbrev both_busy : Scheduler ℕ
both_busy = record { workers = busy ∷ busy ∷ []; next_worker = 1 }

all_busy : (k : ℕ) → k < 2 → Refuses 3 9 both_busy.workers k
unfolding Refuses offer try_enqueue
all_busy zero l = refl
all_busy (suc zero) l = refl
all_busy (suc (suc k)) l = absurd (omega arith)

submit_task-stop_example :
    (s' : Scheduler ℕ) × (submit_task 3 false 9 (negsuc 0) (stop ∷ []) both_busy ≡ some (none, s'))
    × (s'.workers ≡ both_busy.workers)
submit_task-stop_example = submit_task-stop 3 9 0 both_busy [] (omega arith) all_busy
