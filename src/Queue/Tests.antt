-- ===== src/Queue/Tests.antt =====
-- A run of two threads on a queue of two slots: thread 0 enqueues 7, thread 1 dequeues it.
use ticktock.Prelude.{ℕ, ◌+◌, ◌≤◌, ◌≡◌, refl, arith}
use ticktock.Queue.{
  update, idle, tail_loaded, tail_ready, tail_won, value_stored, head_loaded, head_ready, head_won,
  value_loaded, writing, full, reading, Queue, init, size, goto, load_tail, version_is_tail,
  win_tail, store_value, publish, load_head, version_is_next, win_head, load_value, Reach, here,
  then_step,
}
use ticktock.Queue.Safety.{Reach-onward, dequeue-enqueue, size_bounds}
use ticktock.Queue.Reader.{IsStill, one_reader}
use ticktock.Queue.Alone.{Inevitable}
use ticktock.Queue.Progress.{Dequeued, Enqueued, dequeue_alone, enqueue_alone}

abbrev zeros : ℕ → ℕ
zeros i = 0

abbrev fresh : Queue ℕ
unfolding init
fresh = init ℕ zeros zeros

abbrev looked : Queue ℕ
looked = goto ℕ fresh 0 (tail_loaded 0 7)

abbrev ready : Queue ℕ
ready = goto ℕ looked 0 (tail_ready 0 7)

abbrev won : Queue ℕ
won = record ready {
  tail = 1;
  pc = update ready.pc 0 (tail_won 0 7);
  log = update ready.log 0 7;
  phase = update ready.phase 0 (writing 0);
}

abbrev stored : Queue ℕ
stored = record won { value = update won.value 0 7; pc = update won.pc 0 (value_stored 0) }

abbrev published : Queue ℕ
published = record stored {
  version = update stored.version 0 1;
  pc = update stored.pc 0 idle;
  phase = update stored.phase 0 full;
}

abbrev asked : Queue ℕ
asked = goto ℕ published 1 (head_loaded 0)

abbrev next : Queue ℕ
next = goto ℕ asked 1 (head_ready 0)

abbrev taken : Queue ℕ
taken = record next {
  head = 1;
  pc = update next.pc 1 (head_won 0);
  phase = update next.phase 0 (reading 1);
}

abbrev loaded : Queue ℕ
loaded = goto ℕ taken 1 (value_loaded 0 7)

to_won : Reach ℕ 2 fresh won
unfolding init
to_won =
    then_step {q = ready} {q' = won}
      (then_step {q = looked} {q' = ready}
        (then_step {q = fresh} {q' = looked} here (load_tail 0 7 refl))
        (version_is_tail 0 0 7 refl refl))
      (win_tail 0 0 7 refl refl)

won_to_published : Reach ℕ 2 won published
unfolding init
won_to_published =
    then_step {q = stored} {q' = published}
      (then_step {q = won} {q' = stored} here (store_value 0 0 7 refl)) (publish 0 0 refl)

won_to_loaded : Reach ℕ 2 won loaded
unfolding init
won_to_loaded =
    then_step {q = taken} {q' = loaded}
      (then_step {q = next} {q' = taken}
        (then_step {q = asked} {q' = next}
          (then_step {q = published} {q' = asked} won_to_published (load_head 1 refl))
          (version_is_next 1 0 refl refl))
        (win_head 1 0 refl refl))
      (load_value 1 0 refl)

to_published : Reach ℕ 2 fresh published
to_published = Reach-onward ℕ 2 (omega arith) to_won won_to_published

to_loaded : Reach ℕ 2 fresh loaded
to_loaded = Reach-onward ℕ 2 (omega arith) to_won won_to_loaded

two_slots : 2 ≤ 2
two_slots = omega arith

quiet_fresh : (i : ℕ) → fresh.pc i ≡ idle
unfolding init
quiet_fresh i = refl

quiet_published : (i : ℕ) → published.pc i ≡ idle
unfolding init
quiet_published i = ground arith

abbrev put : ℕ
put = 7

abbrev reader : ℕ
reader = 1

dequeue-enqueue_example : loaded.value 0 ≡ put
unfolding init fresh
dequeue-enqueue_example =
    dequeue-enqueue ℕ 2 two_slots zeros zeros 0 1 0 7 7 won loaded to_won refl won_to_loaded refl

-- Thread 0 begins another call meanwhile.
loaded_to_later : Reach ℕ 2 loaded (goto ℕ loaded 0 (head_loaded 1))
unfolding init
loaded_to_later =
    then_step {q = loaded} {q' = goto ℕ loaded 0 (head_loaded 1)} here (load_head 0 refl)

one_reader_example : (reader ≡ 1) × IsStill ℕ 1 loaded_to_later
unfolding init fresh
one_reader_example =
    one_reader ℕ 2 two_slots zeros zeros 1 1 0 7 7 loaded (goto ℕ loaded 0 (head_loaded 1))
      to_loaded refl loaded_to_later refl

size_bounds_example : (size ℕ won.head won ≤ 2) × (size ℕ won.head loaded + won.head ≡ loaded.tail)
unfolding init fresh
size_bounds_example = size_bounds ℕ 2 two_slots zeros zeros won loaded to_won won_to_loaded

dequeue_alone_example :
    Inevitable ℕ 2 1 (Dequeued ℕ 2 two_slots 1 0 7) (goto ℕ published 1 (head_loaded 0))
unfolding init fresh
dequeue_alone_example =
    dequeue_alone ℕ 2 two_slots zeros zeros published 1 to_published quiet_published (omega arith)

enqueue_alone_example :
    Inevitable ℕ 2 1 (Enqueued ℕ 2 two_slots 1 1 9) (goto ℕ published 1 (tail_loaded 1 9))
unfolding init fresh
enqueue_alone_example =
    enqueue_alone ℕ 2 two_slots zeros zeros published 1 9 to_published quiet_published (omega arith)
