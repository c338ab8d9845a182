-- ===== src/Ring/Run.antt =====
-- Whole sequences of calls on one ring.
use ticktock.Prelude.{ℕ, ◌<◌, ◌≡◌, refl, ap, ap₂, ◌∙◌, Bool, Option, List, [], ◌∷◌}
use ticktock.Ring.{Ring, init, try_enqueue, try_dequeue}
use ticktock.Ring.Fifo
use ticktock.Ring.Refine.{
  try_enqueue-enqueue, try_dequeue-dequeue, try_enqueue-IsValid, try_dequeue-IsValid,
  empty-contents,
}
use ticktock.Ring.Window.{IsValid, contents}

pub data Call (Item : Type 0) : Type 0 where
  put : Item → Call Item
  get : Call Item

pub data Answer (Item : Type 0) : Type 0 where
  accepted : Bool → Answer Item
  given : Option Item → Answer Item

module _ {Item : Type 0} (capacity : ℕ) where
  pub run_ring : List (Call Item) → Ring Item → List (Answer Item)
  run_ring [] r = []
  run_ring (put item ∷ calls) r =
      let (b, r') = try_enqueue capacity item r in accepted b ∷ run_ring calls r'
  run_ring (get ∷ calls) r = let (o, r') = try_dequeue capacity r in given o ∷ run_ring calls r'

  pub run_fifo : List (Call Item) → List Item → List (Answer Item)
  run_fifo [] waiting = []
  run_fifo (put item ∷ calls) waiting =
      let (b, rest) = Fifo.enqueue capacity item waiting in accepted b ∷ run_fifo calls rest
  run_fifo (get ∷ calls) waiting =
      let (o, rest) = Fifo.dequeue waiting in given o ∷ run_fifo calls rest

  valid_run :
      (calls : List (Call Item)) (r : Ring Item)
      → IsValid capacity r
      → run_ring calls r ≡ run_fifo calls (contents capacity r)
  unfolding run_ring run_fifo
  valid_run [] r v = refl
  valid_run (put item ∷ calls) r v =
      ap₂ ◌∷◌ refl
        (valid_run calls (try_enqueue capacity item r).1 (try_enqueue-IsValid capacity item r v))
      ∙ ap (λ (p : Bool × List Item). accepted p.0 ∷ run_fifo calls p.1)
          (try_enqueue-enqueue capacity item r v)
  valid_run (get ∷ calls) r v =
      ap₂ ◌∷◌ refl (valid_run calls (try_dequeue capacity r).1 (try_dequeue-IsValid capacity r v))
      ∙ ap (λ (p : Option Item × List Item). given p.0 ∷ run_fifo calls p.1)
          (try_dequeue-dequeue capacity r v)

  -- On a new ring of one slot or more, any sequence of calls of try_enqueue and try_dequeue is
  -- answered as by an empty first-in first-out queue that holds capacity - 1 items.
  pub run_ring-run_fifo :
      (junk : ℕ → Item) (calls : List (Call Item))
      → 0 < capacity
      → run_ring calls (init junk) ≡ run_fifo calls []
  unfolding init IsValid
  run_ring-run_fifo junk calls positive =
      valid_run calls (init junk) (positive, positive)
      ∙ ap (λ (w : List Item). run_fifo calls w) (empty-contents capacity (init junk) refl)
