-- ===== src/Ring/Tests.antt =====
-- Runs of a ring of three slots.
use ticktock.Prelude.{ℕ, ◌+◌, ◌≡◌, refl, arith, false, List, [], ◌∷◌, length, ◌==◌}
use ticktock.Ring.{Ring, init, size, is_full, is_empty, try_enqueue, try_dequeue}
use ticktock.Ring.Fifo
use ticktock.Ring.Refine.{try_enqueue-enqueue, try_dequeue-dequeue, size-length}
use ticktock.Ring.Window.{IsValid, contents}
use ticktock.Ring.Run.{Call, put, get, run_ring, run_fifo, run_ring-run_fifo}

abbrev zeros : ℕ → ℕ
zeros i = 0

abbrev calls : List (Call ℕ)
calls = put 5 ∷ put 6 ∷ put 7 ∷ get ∷ get ∷ get ∷ []

abbrev wrapped : Ring ℕ
wrapped = record { head = 2; tail = 0; items = λ i. i + 5 }

refused : (try_enqueue 3 9 (record { head = 1; tail = 0; items = zeros })).0 ≡ false
unfolding try_enqueue
refused = refl

run_ring-run_fifo_example : run_ring 3 calls (init zeros) ≡ run_fifo 3 calls []
run_ring-run_fifo_example = run_ring-run_fifo 3 zeros calls (omega arith)

try_enqueue-enqueue_example :
    ((try_enqueue 3 9 wrapped).0, contents 3 (try_enqueue 3 9 wrapped).1)
    ≡ Fifo.enqueue 3 9 (contents 3 wrapped)
unfolding IsValid
try_enqueue-enqueue_example = try_enqueue-enqueue 3 9 wrapped (omega arith, omega arith)

try_dequeue-dequeue_example :
    ((try_dequeue 3 wrapped).0, contents 3 (try_dequeue 3 wrapped).1)
    ≡ Fifo.dequeue (contents 3 wrapped)
unfolding IsValid
try_dequeue-dequeue_example = try_dequeue-dequeue 3 wrapped (omega arith, omega arith)

size-length_example :
    (size 3 wrapped ≡ length (contents 3 wrapped))
    × (is_full 3 wrapped ≡ (length (contents 3 wrapped) + 1 == 3))
    × (is_empty wrapped ≡ (length (contents 3 wrapped) == 0))
unfolding IsValid
size-length_example = size-length 3 wrapped (omega arith, omega arith) (omega arith)
