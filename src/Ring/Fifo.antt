-- ===== src/Ring/Fifo.antt =====
-- The bounded first-in first-out queue that the ring implements.
use ticktock.Prelude.{
  ◌≡◌, arith, ℕ, ◌+◌, ltb, Bool, true, false, if◌then◌else◌, Option, none, some, List, [], ◌∷◌,
  ◌++◌, length,
}

-- What the queue promises: an item is refused when capacity - 1 are waiting, and they
-- leave in the order they came.
unfoldable pub enqueue : {Item : Type 0} → ℕ → Item → List Item → Bool × List Item
enqueue capacity item waiting =
    if ltb (length waiting + 1) capacity then (true, waiting ++ (item ∷ [])) else (false, waiting)

unfoldable pub dequeue : {Item : Type 0} → List Item → Option Item × List Item
dequeue [] = (none, [])
dequeue (item ∷ waiting) = (some item, waiting)

pub accepted_end :
    {Item : Type 0} (capacity : ℕ) (item : Item) (waiting : List Item)
    → (enqueue capacity item waiting).0 ≡ true
    → (enqueue capacity item waiting).1 ≡ waiting ++ (item ∷ [])
unfolding enqueue
accepted_end capacity item waiting e = ground arith
