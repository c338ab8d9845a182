-- ===== src/Ring/Window.antt =====
-- The items of a ring, as the window of slots from its head to its tail.
use ticktock.Prelude.{
  ℕ, zero, suc, ◌+◌, ◌-◌, if◌then◌else◌, ◌%◌, ◌≤◌, ◌<◌, ◌≡◌, ◌≢◌, ◌⊎◌, refl, ap, ap₂, ◌∙◌, arith,
  inl, inr, Bool-cases, ltb, ltb→lt, List, [], ◌∷◌, ◌++◌, length,
}
use native.Mathlib.Nat.{mod-lt, mod-eq_of_lt, mod_self}
use ticktock.Ring.{Ring, write}

-- Both counters are slots.
unfoldable pub IsValid : {Item : Type 0} → ℕ → Ring Item → Type 0
IsValid capacity r = (r.head < capacity) × (r.tail < capacity)

-- The slot after a slot.
pub next :
    (capacity t : ℕ)
    → t < capacity
    → ((t + 1 < capacity) × ((t + 1) % capacity ≡ t + 1))
      ⊎ ((t + 1 ≡ capacity) × ((t + 1) % capacity ≡ 0))
next capacity t lt = elim (Bool-cases (ltb (t + 1) capacity)) [
  | inl below ↦ let l : t + 1 < capacity = ltb→lt (t + 1) capacity below in inl (l, mod-eq_of_lt l)
  | inr last ↦
      let e : t + 1 ≡ capacity = ground arith in
      inr (e, ap (λ (n : ℕ). n % capacity) e ∙ mod_self capacity)
]

-- The slot that is n after h is t: below or, once round, above it.
unfoldable pub After : ℕ → ℕ → ℕ → ℕ → Type 0
After capacity h n t = (h + n ≡ t) ⊎ (h + n ≡ t + capacity)

module _ {Item : Type 0} (capacity : ℕ) where
  -- The number of slots from the head to the tail.
  unfoldable pub count : Ring Item → ℕ
  count r = if ltb r.tail r.head then (r.tail + capacity) - r.head else r.tail - r.head

  -- The n items from slot h on, going round at the capacity.
  unfoldable pub window : (ℕ → Item) → ℕ → ℕ → List Item
  window items h zero = []
  window items h (suc n) = items h ∷ window items ((h + 1) % capacity) n

  unfoldable pub contents : Ring Item → List Item
  contents r = window r.items r.head (count r)

  length-window : (items : ℕ → Item) (h n : ℕ) → length (window items h n) ≡ n
  unfolding window
  length-window items h zero = refl
  length-window items h (suc n) = ap suc (length-window items ((h + 1) % capacity) n)

  -- An item behind a window extends it.
  pub window-write :
      (items : ℕ → Item) (item : Item) (n h t : ℕ)
      → h < capacity
      → t < capacity
      → n < capacity
      → After capacity h n t
      → window (write items t item) h (suc n) ≡ window items h n ++ (item ∷ [])
  unfolding window After
  window-write items item zero h t lh lt ln (inl e) = ap (λ (a : Item). a ∷ []) (ground arith)
  window-write items item zero h t lh lt ln (inr e) = absurd (omega arith)
  window-write items item (suc n) h t lh lt ln after = ap₂ ◌∷◌ old (
      window-write items item n ((h + 1) % capacity) t (mod-lt (h + 1) (omega arith)) lt
        (omega arith) onward)
    where
      apart : h ≢ t
      apart e = elim after [ inl a ↦ omega arith | inr a ↦ omega arith ]

      old : write items t item h ≡ items h
      old = let a = apart in ground arith

      onward : After capacity ((h + 1) % capacity) n t
      onward = elim (next capacity h lh) [
        | inl below ↦ elim after [ inl a ↦ inl (omega arith) | inr a ↦ inr (omega arith) ]
        | inr last ↦ elim after [ inl a ↦ absurd (omega arith) | inr a ↦ inl (omega arith) ]
      ]

  -- The tail is the slot behind the items.
  pub count-After : (r : Ring Item) → IsValid capacity r → After capacity r.head (count r) r.tail
  unfolding count After IsValid
  count-After r v = elim (Bool-cases (ltb r.tail r.head)) [
    | inl wrapped ↦
        inr (let l : r.tail < r.head = ltb→lt r.tail r.head wrapped in rw wrapped (omega arith))
    | inr plain ↦ inl (let l : r.head ≤ r.tail = ground arith in rw plain (omega arith))
  ]

  -- The count of a ring whose counters are slots is known from the slot behind its items.
  pub After-count :
      (r : Ring Item) (n : ℕ)
      → IsValid capacity r
      → n < capacity
      → After capacity r.head n r.tail
      → count r ≡ n
  unfolding count After IsValid
  After-count r n v ln (inl e) = ground arith
  After-count r n v ln (inr e) = ground arith

  pub count_bound : (r : Ring Item) → IsValid capacity r → count r < capacity
  unfolding count IsValid
  count_bound r v = ground arith

  -- The ring is full when one slot is left, which stays unused.
  pub full_iff :
      (r : Ring Item)
      → IsValid capacity r
      → (r.head ≡ (r.tail + 1) % capacity → count r + 1 ≡ capacity)
        × (count r + 1 ≡ capacity → r.head ≡ (r.tail + 1) % capacity)
  unfolding IsValid After
  full_iff r v = elim (next capacity r.tail v.1) [
    | inl below ↦ (
      λ e. elim (count-After r v) [
        | inl a ↦ let b = count_bound r v in omega arith
        | inr a ↦ omega arith
      ],
      λ e. elim (count-After r v) [ inl a ↦ omega arith | inr a ↦ omega arith ],
    )
    | inr last ↦ (
      λ e. elim (count-After r v) [
        | inl a ↦ omega arith
        | inr a ↦ let b = count_bound r v in omega arith
      ],
      λ e. elim (count-After r v) [ inl a ↦ omega arith | inr a ↦ omega arith ],
    )
  ]

  pub empty_iff :
      (r : Ring Item)
      → IsValid capacity r
      → (r.head ≡ r.tail → count r ≡ 0) × (count r ≡ 0 → r.head ≡ r.tail)
  unfolding IsValid After
  empty_iff r v = elim (count-After r v) [
    | inl a ↦ (λ e. omega arith, λ e. omega arith)
    | inr a ↦ let b = count_bound r v in (λ e. absurd (omega arith), λ e. omega arith)
  ]

  pub length-contents : (r : Ring Item) → length (contents r) ≡ count r
  unfolding contents
  length-contents r = length-window r.items r.head (count r)
