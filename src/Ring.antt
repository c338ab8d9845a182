-- ===== src/Ring.antt =====
-- Queue11 of include/queue.h, the ring of the workers' tasks, call by call: one thread
-- inserts and one deletes, and each of the two counters is stored by one of them alone. m_items is a
-- function of the index, and the capacity is an argument.
pub mod Fifo
pub mod Refine
pub mod Run
pub mod Window
mod Tests
use ticktock.Prelude.{
  ℕ, ◌+◌, ◌-◌, ◌%◌, ◌^◌, ltb, ◌==◌, Bool, true, false, if◌then◌else◌, Option, none, some,
}

abbrev pub write : {A : Type 0} → (ℕ → A) → ℕ → A → ℕ → A
write f k a i = if i == k then a else f i

pub record Ring (Item : Type 0) : Type 0 where
  pub head : ℕ
  pub tail : ℕ
  pub items : ℕ → Item

module _ {Item : Type 0} where
  pub init : (ℕ → Item) → Ring Item
  init junk = record { head = 0; tail = 0; items = junk }

  pub is_full : ℕ → Ring Item → Bool
  is_full capacity r = r.head == (r.tail + 1) % capacity

  pub is_empty : Ring Item → Bool
  is_empty r = r.head == r.tail

  -- The difference is an int, of 32 bits, to which the capacity is added when it is negative; the result is
  -- extended by its sign to the 64 bits of a size_t.
  unfoldable pub size : ℕ → Ring Item → ℕ
  size capacity r =
      let difference = (r.tail + 2 ^ 64 - r.head) % 2 ^ 32 in
      let s = if ltb difference (2 ^ 31) then difference else (difference + capacity) % 2 ^ 32 in
      if ltb s (2 ^ 31) then s else s + 2 ^ 64 - 2 ^ 32

  unfoldable pub try_enqueue : ℕ → Item → Ring Item → Bool × Ring Item
  try_enqueue capacity item r =
      let new_tail = (r.tail + 1) % capacity in
      if r.head == new_tail
      then (false, r)
      else (true, record r { items = write r.items r.tail item; tail = new_tail })

  -- The item that is dequeued, if any.
  pub try_dequeue : ℕ → Ring Item → Option Item × Ring Item
  try_dequeue capacity r =
      if r.tail == r.head
      then (none, r)
      else (some (r.items r.head), record r { head = (r.head + 1) % capacity })
