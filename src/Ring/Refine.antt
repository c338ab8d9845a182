-- ===== src/Ring/Refine.antt =====
-- A ring in use behaves as the bounded first-in first-out queue of the items it holds.
use ticktock.Prelude.{
  ℕ, suc, ◌+◌, ◌%◌, ◌^◌, ◌≤◌, ◌<◌, ◌≡◌, ◌≢◌, refl, sym, ap, ◌∙◌, arith, inl, inr, Bool-cases, ltb,
  ◌==◌, ==_iff, true, false, List, [], ◌∷◌, ◌++◌, length,
}
use ticktock.Prelude.{length-append, Bool}
use native.Mathlib.Nat.{mod-lt}
use ticktock.Ring.Fifo
use ticktock.Ring.{Ring, write, size, is_full, is_empty, try_enqueue, try_dequeue}
use ticktock.Ring.Window.{
  IsValid, next, After, count, window, contents, window-write, count-After, After-count,
  count_bound, full_iff, empty_iff, length-contents,
}

module _ {Item : Type 0} (capacity : ℕ) where
  -- A ring that refuses an item stays as it is.
  pub refused_ring :
      (item : Item) (r : Ring Item)
      → (try_enqueue capacity item r).0 ≡ false
      → (try_enqueue capacity item r).1 ≡ r
  unfolding try_enqueue
  refused_ring item r e = ground arith

  pub try_enqueue-IsValid :
      (item : Item) (r : Ring Item)
      → IsValid capacity r
      → IsValid capacity (try_enqueue capacity item r).1
  unfolding try_enqueue IsValid
  try_enqueue-IsValid item r v =
      let m = mod-lt (r.tail + 1) {m = capacity} (omega arith) in ground arith

  pub try_dequeue-IsValid :
      (r : Ring Item) → IsValid capacity r → IsValid capacity (try_dequeue capacity r).1
  unfolding try_dequeue IsValid
  try_dequeue-IsValid r v = let m = mod-lt (r.head + 1) {m = capacity} (omega arith) in ground arith

  -- A ring with room takes the item behind those it holds.
  enqueue-contents :
      (item : Item) (r : Ring Item)
      → IsValid capacity r
      → count capacity r + 1 < capacity
      → contents capacity
          (record r { items = write r.items r.tail item; tail = (r.tail + 1) % capacity })
        ≡ contents capacity r ++ (item ∷ [])
  unfolding contents IsValid After
  enqueue-contents item r v room =
      let after = count-After capacity r v in
      let grown : count capacity r' ≡ suc (count capacity r) =
        After-count capacity r' (suc (count capacity r)) (v.0, mod-lt (r.tail + 1) (omega arith))
          (omega arith) after' in
      rw grown (
        window-write capacity r.items item (count capacity r) r.head r.tail v.0 v.1 (omega arith)
          after)
    where
      r' : Ring Item
      r' = record r { items = write r.items r.tail item; tail = (r.tail + 1) % capacity }

      after' : After capacity r.head (suc (count capacity r)) ((r.tail + 1) % capacity)
      after' = elim (next capacity r.tail v.1) [
        | inl below ↦ elim (count-After capacity r v) [
          | inl a ↦ inl (omega arith)
          | inr a ↦ inr (omega arith)
        ]
        | inr last ↦ elim (count-After capacity r v) [
          | inl a ↦ inr (omega arith)
          | inr a ↦ absurd (omega arith)
        ]
      ]

  pub empty-contents : (r : Ring Item) → r.tail ≡ r.head → contents capacity r ≡ []
  unfolding contents count window
  empty-contents r e =
      let n : count capacity r ≡ 0 = ground arith in
      ap (λ (k : ℕ). window capacity r.items r.head k) n

  dequeue-contents :
      (r : Ring Item)
      → IsValid capacity r
      → r.tail ≢ r.head
      → contents capacity r
        ≡ r.items r.head ∷ contents capacity (record r { head = (r.head + 1) % capacity })
  unfolding contents IsValid window After
  dequeue-contents r v some_left = rw grown refl
    where
      r' : Ring Item
      r' = record r { head = (r.head + 1) % capacity }

      bound : count capacity r' < capacity
      bound = count_bound capacity r' (mod-lt (r.head + 1) (omega arith), v.1)

      before : After capacity r.head (suc (count capacity r')) r.tail
      before = elim (next capacity r.head v.0) [
        | inl below ↦ elim (count-After capacity r' (mod-lt (r.head + 1) (omega arith), v.1)) [
          | inl a ↦ inl (omega arith)
          | inr a ↦ inr (omega arith)
        ]
        | inr last ↦ elim (count-After capacity r' (mod-lt (r.head + 1) (omega arith), v.1)) [
          | inl a ↦ inr (omega arith)
          | inr a ↦ absurd (let b = bound in omega arith)
        ]
      ]

      room : suc (count capacity r') < capacity
      room = let b = bound in elim before [ inl a ↦ omega arith | inr a ↦ omega arith ]

      grown : count capacity r ≡ suc (count capacity r')
      grown = After-count capacity r (suc (count capacity r')) v room before

  -- On a ring whose counters are slots, try_enqueue answers as the first-in first-out queue of its
  -- items that holds capacity - 1 of them, and leaves the items which that queue then holds.
  pub try_enqueue-enqueue :
      (item : Item) (r : Ring Item)
      → IsValid capacity r
      → let (s, r') = try_enqueue capacity item r in
        (s, contents capacity r') ≡ Fifo.enqueue capacity item (contents capacity r)
  unfolding try_enqueue Fifo.enqueue
  try_enqueue-enqueue item r v =
      let n = length-contents capacity r in
      let f = full_iff capacity r v in
      let b = count_bound capacity r v in
      elim (Bool-cases (r.head == (r.tail + 1) % capacity)) [
        | inl full ↦
            let e = f.0 ((==_iff r.head ((r.tail + 1) % capacity)).0 full) in
            let no : ltb (length (contents capacity r) + 1) capacity ≡ false = ground arith in
            rw (full, no) refl
        | inr room ↦
            let l : count capacity r + 1 < capacity = ground arith in
            let yes : ltb (length (contents capacity r) + 1) capacity ≡ true = ground arith in
            rw (room, yes) (ap (λ (l : List Item). (true, l)) (enqueue-contents item r v l))
      ]

  -- On a ring whose counters are slots, try_dequeue gives the first item of the first-in first-out queue of
  -- its items, or none, and leaves the rest.
  pub try_dequeue-dequeue :
      (r : Ring Item)
      → IsValid capacity r
      → let (s, r') = try_dequeue capacity r in
        (s, contents capacity r') ≡ Fifo.dequeue (contents capacity r)
  unfolding try_dequeue Fifo.dequeue
  try_dequeue-dequeue r v = elim (Bool-cases (r.tail == r.head)) [
    | inl empty ↦ rw (empty, empty-contents r ((==_iff r.tail r.head).0 empty)) refl
    | inr some_left ↦ rw (some_left, dequeue-contents r v (λ e. ground arith)) refl
  ]

  -- Up to a capacity of 2^31 the int of size() holds the number of items.
  pub size-count :
      (r : Ring Item) → IsValid capacity r → capacity ≤ 2 ^ 31 → size capacity r ≡ count capacity r
  unfolding size count IsValid
  size-count r v small = ground arith

  -- On a ring whose counters are slots, of a capacity of at most 2^31, size() is the number of its items, is_full()
  -- holds when one more would make the capacity, and is_empty() when there are none.
  pub size-length :
      (r : Ring Item)
      → IsValid capacity r
      → capacity ≤ 2 ^ 31
      → (size capacity r ≡ length (contents capacity r))
        × (is_full capacity r ≡ (length (contents capacity r) + 1 == capacity))
        × (is_empty r ≡ (length (contents capacity r) == 0))
  unfolding is_full is_empty
  size-length r v small =
      let n = length-contents capacity r in
      let f = full_iff capacity r v in
      let e = empty_iff capacity r v in (size-count r v small ∙ sym n, ground arith, ground arith)

  -- A ring that accepts an item holds one more.
  pub accepted_count :
      (item : Item) (r : Ring Item)
      → IsValid capacity r
      → (try_enqueue capacity item r).0 ≡ true
      → count capacity (try_enqueue capacity item r).1 ≡ count capacity r + 1
  accepted_count item r v e =
      let same = try_enqueue-enqueue item r v in
      let r' = (try_enqueue capacity item r).1 in
      let now : contents capacity r' ≡ contents capacity r ++ (item ∷ []) =
        ap (λ (p : Bool × List Item). p.1) same
        ∙ Fifo.accepted_end capacity item (contents capacity r)
            (sym (ap (λ (p : Bool × List Item). p.0) same) ∙ e) in
      sym (length-contents capacity r')
      ∙ ap length now
      ∙ length-append (contents capacity r) (item ∷ [])
      ∙ ap (λ (n : ℕ). n + 1) (length-contents capacity r)

  -- And size() tells so, where the int holds it.
  pub accepted_size :
      (item : Item) (r : Ring Item)
      → IsValid capacity r
      → capacity ≤ 2 ^ 31
      → (try_enqueue capacity item r).0 ≡ true
      → size capacity (try_enqueue capacity item r).1 ≡ size capacity r + 1
  accepted_size item r v small e =
      size-count (try_enqueue capacity item r).1 (try_enqueue-IsValid item r v) small
      ∙ accepted_count item r v e
      ∙ ap (λ (n : ℕ). n + 1) (sym (size-count r v small))
