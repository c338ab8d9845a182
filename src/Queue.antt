-- ===== src/Queue.antt =====
-- Queue of include/queue.h, the lock-free queue of many producers and consumers, as the interleavings of
-- the atomic operations of its calls. The counters are numbers: a run of 2^64 calls, after which
-- they would wrap around, is left out. The loops of enqueue and dequeue are calls of try_enqueue and
-- try_dequeue in turn. `log`, `phase` are ghosts: what was enqueued under a ticket, and how far
-- the ticket has come; no step looks at them.
pub mod Alone
pub mod Invariant
pub mod Owned
pub mod Progress
pub mod Reader
pub mod Safety
pub mod Slots
mod Tests
use ticktock.Prelude.{ℕ, ltb, ◌^◌, ◌+◌, ◌-◌, ◌%◌, ◌≡◌, ◌≢◌, ◌≤◌, ◌==◌, if◌then◌else◌}

abbrev pub update : {A : Type 0} → (ℕ → A) → ℕ → A → ℕ → A
update f k a i = if i == k then a else f i

-- A ticket is a value of m_tail at which one call of try_enqueue won its compare-exchange.
pub data Phase : Type 0 where
  free : Phase
  writing : ℕ → Phase
  full : Phase
  reading : ℕ → Phase
  emptied : Phase

module _ (Value : Type 0) where
  -- Where a thread stands: outside, or behind the named operation of a call.
  pub data Pc : Type 0 where
    idle : Pc
    tail_loaded : ℕ → Value → Pc
    tail_ready : ℕ → Value → Pc
    tail_won : ℕ → Value → Pc
    value_stored : ℕ → Pc
    head_loaded : ℕ → Pc
    head_ready : ℕ → Pc
    head_won : ℕ → Pc
    value_loaded : ℕ → Value → Pc

  pub record Queue : Type 0 where
    pub version : ℕ → ℕ
    pub value : ℕ → Value
    pub head : ℕ
    pub tail : ℕ
    pub pc : ℕ → Pc
    pub log : ℕ → Value
    pub phase : ℕ → Phase

  -- The constructor. The slots hold `junk`, and `blank` is the log of what was never enqueued.
  pub init : (ℕ → Value) → (ℕ → Value) → Queue
  init junk blank = record {
    version = λ i. i;
    value = junk;
    head = 0;
    tail = 0;
    pc = λ j. idle;
    log = blank;
    phase = λ t. free;
  }

  -- The value that size() computes when it has loaded m_head and then reads m_tail: an unsigned difference.
  abbrev pub size : ℕ → Queue → ℕ
  size loaded_head q =
      if ltb q.tail loaded_head then q.tail + 2 ^ 64 - loaded_head else q.tail - loaded_head

  abbrev pub goto : Queue → ℕ → Pc → Queue
  goto q j p = record q { pc = update q.pc j p }

  -- One atomic operation of thread j.
  pub data Step (capacity : ℕ) (q : Queue) : Queue → Type 0 where
    load_tail :
        (j : ℕ) (v : Value) → q.pc j ≡ idle → Step capacity q (goto q j (tail_loaded q.tail v))
    version_is_tail :
        (j t : ℕ) (v : Value)
        → q.pc j ≡ tail_loaded t v
        → q.version (t % capacity) ≡ t
        → Step capacity q (goto q j (tail_ready t v))
    version_is_not_tail :
        (j t : ℕ) (v : Value)
        → q.pc j ≡ tail_loaded t v
        → q.version (t % capacity) ≢ t
        → Step capacity q (goto q j idle)
    win_tail :
        (j t : ℕ) (v : Value)
        → q.pc j ≡ tail_ready t v
        → q.tail ≡ t
        → Step capacity q (record q {
          tail = t + 1;
          pc = update q.pc j (tail_won t v);
          log = update q.log t v;
          phase = update q.phase t (writing j);
        })
    lose_tail :
        (j t : ℕ) (v : Value)
        → q.pc j ≡ tail_ready t v
        → q.tail ≢ t
        → Step capacity q (goto q j idle)
    store_value :
        (j t : ℕ) (v : Value)
        → q.pc j ≡ tail_won t v
        → Step capacity q (record q {
          value = update q.value (t % capacity) v;
          pc = update q.pc j (value_stored t);
        })
    publish :
        (j t : ℕ)
        → q.pc j ≡ value_stored t
        → Step capacity q (record q {
          version = update q.version (t % capacity) (t + 1);
          pc = update q.pc j idle;
          phase = update q.phase t full;
        })
    load_head : (j : ℕ) → q.pc j ≡ idle → Step capacity q (goto q j (head_loaded q.head))
    version_is_next :
        (j h : ℕ)
        → q.pc j ≡ head_loaded h
        → q.version (h % capacity) ≡ h + 1
        → Step capacity q (goto q j (head_ready h))
    version_is_not_next :
        (j h : ℕ)
        → q.pc j ≡ head_loaded h
        → q.version (h % capacity) ≢ h + 1
        → Step capacity q (goto q j idle)
    win_head :
        (j h : ℕ)
        → q.pc j ≡ head_ready h
        → q.head ≡ h
        → Step capacity q (record q {
          head = h + 1;
          pc = update q.pc j (head_won h);
          phase = update q.phase h (reading j);
        })
    lose_head : (j h : ℕ) → q.pc j ≡ head_ready h → q.head ≢ h → Step capacity q (goto q j idle)
    load_value :
        (j h : ℕ)
        → q.pc j ≡ head_won h
        → Step capacity q (goto q j (value_loaded h (q.value (h % capacity))))
    release :
        (j h : ℕ) (v : Value)
        → q.pc j ≡ value_loaded h v
        → Step capacity q (record q {
          version = update q.version (h % capacity) (h + capacity);
          pc = update q.pc j idle;
          phase = update q.phase h emptied;
        })

  pub data Reach (capacity : ℕ) (start : Queue) : Queue → Type 0 where
    here : Reach capacity start start
    then_step :
        {q q' : Queue} → Reach capacity start q → Step capacity q q' → Reach capacity start q'
