-- ===== src/Lib.antt =====
-- A verification library for the core of TickTock, a time series database in C++.
--
-- A data point (a timestamp and a double) reaches a time series, whose page keeps it compressed. The
-- compressors write codes of any number of bits with BitSet, and save a check point before each
-- data point so that they can undo what a full buffer has interrupted. Behind the raw data, rollup
-- entries (count, minimum, maximum and sum of an interval) are written to files by the rollup
-- compressor, whose decoder runs over the bytes of a file. Timestamps come in seconds,
-- milliseconds, microseconds or nanoseconds and are brought to the resolution of the server; durations come
-- with a unit; queries and files are bounded by time ranges. A query can downsample its series,
-- turn them into rates, and aggregate them into one.
-- The work of the server is split into tasks, which a scheduler puts into the queues of its workers.
--
-- The parts and their files:
--   Prelude.antt          names of the standard library, and lists, words of w bits and bitwise
--                         operations over the native numbers.
--   BitSet.antt           BitSet and BitSetCursor of include/bitset.h and src/utils/bitset.cpp:
--                         init, recycle, reset, capacity, set (set_bit), test, append, retrieve,
--                         save_check_point, restore_from_check_point, copy_to, copy_from and the sizes.
--                         append and retrieve are each the loop of the public function
--                         (append_loop, retrieve_loop) over the private one that moves the bits of one
--                         byte (append_byte, retrieve_byte).
--   Compress/Endian.antt  compress_int16 to compress_int64 and their decoders, of
--                         RollupCompressor_v1 in src/core/compress.cpp.
--   Compress/Rollup.antt  RollupCompressor_v1::compress and uncompress, one function for each field.
--   Compress/Double.antt  the doubles of the compressors: what is used of their memory.
--   Compress/V0.antt      Compressor_v0 of include/compress.h and src/core/compress.cpp.
--   Compress/V1.antt      Compressor_v1 of the same files: dod_bytes, value_bytes and the room check of
--                         compress, read_dod and read_value of uncompress.
--   Compress/V3.antt      Compressor_v3 of the same files, over BitSet.antt: each of its functions that
--                         appends is given by the calls of BitSet::append that it makes in turn
--                         (int_fields, float_fields, first_fields), and the rounds of uncompress
--                         are next, the loop read_all.
--   Time/Units.antt       to_time_unit and convert_time of src/utils/utils.cpp, TimeUnit of
--                         include/type.h.
--   Time/Resolution.antt  is_sec, is_ms, is_us, is_ns, to_ms, to_sec, step_down and
--                         validate_resolution of src/utils/utils.cpp, with the bounds of
--                         include/utils.h.
--   Time/Range.antt       TimeRange of include/range.h and src/utils/range.cpp.
--   Rate.antt             RateCalculator of include/rate.h and src/agg/rate.cpp.
--   Downsample.antt       the downsamplers of include/down.h and src/agg/down.cpp that keep the value of an
--                         interval in place (count, first, last, max, min, sum), and the fill
--                         policies; Downsample/Rollup.antt those of rollup entries, and
--                         Downsample/Reference.antt describes their results.
--   Aggregate.antt        Aggregator::merge of src/agg/aggregate.cpp over the interface of an aggregator, and
--                         the aggregators avg, count, dev, max, min and sum of include/aggregate.h.
--   Ring.antt             Queue11 of include/queue.h, the ring of tasks of each worker, call by call;
--                         Ring/Fifo.antt is the bounded queue it is compared with.
--   Scheduler.antt        submit_task and get_pending_task_count of TaskScheduler in include/task.h and
--                         src/core/task.cpp, over the rings of the workers: round is the inner loop,
--                         attempt the body of the outer one, and submit_loop the outer loop, whose
--                         spinning takes a list of what the workers do meanwhile.
--   Queue.antt            Queue of include/queue.h as a step relation: each step is one atomic operation
--                         of a call of try_enqueue or try_dequeue in some thread.
-- The children of each file hold its lemmas, and those called Tests its runs on concrete values.
--
-- Representation. A byte is a number below 256 and a buffer a list of bytes; a pointer into the
-- buffer of a set is an offset from m_bits, and m_end is the length of the list. A read behind the
-- end of a source or destination list gives 0, and a write there does nothing: the theorems take
-- buffers that are long enough. Unsigned 64-bit arithmetic keeps its `% 2 ^ 64`. A signed integer is a
-- ℤ in two's complement, and the host is little-endian, so that htobe16 and its kin reverse the
-- bytes. A double is an abstract type. For rollups it has two functions, `scale` for
-- std::llround(x * precision) and `unscale` for the division back, of which only the range of llround
-- is assumed. The compressors of data points, the rates, the downsamplers and the aggregators take more functions of a double, of
-- which is assumed that a double is the eight bytes of its memory, and that its two conversions to an
-- integer give one of 64 bits.
--
-- Fuel. append and retrieve run their loops with their number of bits as fuel: each round moves one
-- bit at least. The loops that skip whole bytes of an offset have the offset itself as fuel. The
-- theorems on append and retrieve show that they return or throw, so the fuel is enough. The loop of
-- Compressor_v3::uncompress has fuel that is an argument; more than the bits of the buffer is enough,
-- since each round reads two bits at least. Locals that it leaves uninitialised hold arbitrary
-- bytes. Each round of Compressor_v1::uncompress reads a byte at least, so that its fuel is one more
-- than the cursor.
-- The loops that fill in intervals have the end of the timestamps as fuel, which grow by one at least.
-- That is enough as long as the timestamps do not wrap around; otherwise the loops of the source may
-- not end, and the list of the model is cut off. The loop of merge has the number of data points as fuel, of
-- which each round reads one at least.
--
-- Pages. The theorems on what Compressor_v3 stores take a page of at most 2^14 bytes, in which m_dp_count,
-- a uint16_t, does not wrap around, since a data point takes two bits at least.
--
-- Queues. The steps of the lock-free queue interleave sequentially; the orders weaker than that which
-- its loads and stores permit are left out, and so is the wrap-around of its counters after
-- 2^64 calls. Its theorems take a capacity of two or more. What size() of Queue11 gives is an int: its theorem
-- takes a capacity of at most 2^31.
--
-- submit_task spins until a worker takes the task or the scheduler is told to stop: its model has a list
-- of pauses, each with what it finds, and gives none when the list ends first. A scheduler has one worker
-- at least.
--
-- Not modelled: Compressor_v2 of src/core/compress.cpp, QueueMutex, the downsamplers avg, dev and
-- percentile, the aggregators percentile, top and bottom, the parsers, and everything that works on
-- files, memory maps, and sockets. The rebase of a set or a compressor only moves its base pointer.
-- BitSet64 belongs to the perfect hash. Printing is left out.
pub mod Prelude
pub mod BitSet
pub mod Compress
pub mod Time
pub mod Rate
pub mod Downsample
pub mod Aggregate
pub mod Ring
pub mod Queue
pub mod Scheduler
