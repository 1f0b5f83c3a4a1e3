-- ===== src/Threads.antt =====
-- fuzzer/AMQP.c: the arrays of the channels' threads, their creation, and how `fuzz` waits for the
-- threads to end.
pub mod Creation
pub mod Joining
use amqpgram.Base.{
  ℕ, zero, suc, ◌+◌, ◌*◌, ◌%◌, ◌≡◌, Bool, true, false, ◌||◌, ◌&&◌, not, List, [], ◌∷◌, ◌++◌, Option,
  none, some, ltb, leb, ◌==◌, if◌then◌else◌,
}
use amqpgram.Base.Outcome.{Outcome, ok, fault, stuck, ◌>>=◌}
use amqpgram.Strategy.{check_strat}

-- The objects that `malloc` gave: the size of each that is still there, by its address. The n-th call
-- that allocates gives the address n, if the object does not stay where it is.
pub record Heap : Type 0 where
  pub next : ℕ
  pub size_of : ℕ → Option ℕ

unfoldable pub allocate : ℕ → Heap → Heap
allocate size h = record {
  next = h.next + 1;
  size_of = λ p. if p == h.next then some size else h.size_of p;
}

-- `reallocarray`; whether the object at `p` is moved is the allocator's choice. An object that moves
-- leaves its address, which must not be used again; one that is not there faults.
unfoldable pub reallocarray : (ℕ → Bool) → ℕ → ℕ → Heap → Outcome (ℕ × Heap)
reallocarray moves p size h = elim (h.size_of p) [
  | none ↦ fault
  | some old ↦
      if moves h.next
      then ok (
        h.next,
        record {
          next = h.next + 1;
          size_of = λ q. if q == h.next then some size else if q == p then none else h.size_of q;
        },
      )
      else ok (
        p,
        record { next = h.next + 1; size_of = λ q. if q == p then some size else h.size_of q },
      )
]

-- Whether a write to the element `index` of an array lies within the array's object.
unfoldable pub write_element : ℕ → ℕ → ℕ → Heap → Outcome Heap
write_element p element_size index h = elim (h.size_of p) [
  | none ↦ fault
  | some size ↦ if leb ((index + 1) * element_size) size then ok h else fault
]

-- The sizes of the types of pthread.h, and of a pointer.
pub record Sizes : Type 0 where
  pub mutex : ℕ
  pub cond : ℕ
  pub pointer : ℕ
  pub thread : ℕ

-- The global variables, the static size of the arrays, and the channels whose threads were started.
pub record Threads : Type 0 where
  pub threads_array_size : ℕ
  pub max_created_threads : ℕ
  pub channel_mutexes : ℕ
  pub channel_conds : ℕ
  pub channel_packets : ℕ
  pub channels : ℕ
  pub started : List ℕ
  pub heap : Heap

module _ (sizes : Sizes) (moves : ℕ → Bool) where
  -- The four `malloc`s.
  unfoldable pub first_arrays : Threads → Threads
  unfolding allocate
  first_arrays t =
      let h = t.heap in
      record t {
        threads_array_size = 1;
        channel_mutexes = h.next;
        channel_conds = h.next + 1;
        channel_packets = h.next + 2;
        channels = h.next + 3;
        heap =
            allocate sizes.thread
              (allocate sizes.pointer (allocate sizes.cond (allocate sizes.mutex h)));
      }

  -- The four `reallocarray`s, each of `channel_mutexes`.
  unfoldable pub larger_arrays : Threads → Outcome Threads
  unfolding reallocarray
  larger_arrays t =
      let count = t.threads_array_size * 2 in
      reallocarray moves t.channel_mutexes (sizes.mutex * count) t.heap >>= λ (mutexes, h).
      reallocarray moves mutexes (sizes.cond * count) h >>= λ (conds, h').
      reallocarray moves mutexes (sizes.pointer * count) h' >>= λ (packets, h'').
      reallocarray moves mutexes (sizes.thread * count) h'' >>= λ (channels, h'''). ok (record t {
        threads_array_size = count;
        channel_mutexes = mutexes;
        channel_conds = conds;
        channel_packets = packets;
        channels = channels;
        heap = h''';
      })

  -- The new thread's mutex, condition, packet and identifier, at the index `max_created_threads`; the
  -- object with the thread's arguments is not part of the model.
  unfoldable pub start_thread : Threads → Outcome Threads
  unfolding write_element
  start_thread t =
      let index = t.max_created_threads in
      write_element t.channel_mutexes sizes.mutex index t.heap >>= λ h.
      write_element t.channel_conds sizes.cond index h >>= λ h'.
      write_element t.channel_packets sizes.pointer index h' >>= λ h''.
      write_element t.channels sizes.thread index h'' >>= λ h'''.
      ok (record t {
        max_created_threads = index + 1;
        started = t.started ++ index ∷ [];
        heap = h''';
      })

  unfoldable pub create_channel_thread : ℕ → Threads → Outcome Threads
  unfolding first_arrays larger_arrays start_thread
  create_channel_thread reset t =
      let size = if reset == 1 then 0 else t.threads_array_size in
      let t' = record t { threads_array_size = size } in
      if ltb size (t.max_created_threads + 1)
      then (if size == 0 then start_thread (first_arrays t') else larger_arrays t' >>= start_thread)
      else start_thread t'

-- The threads that may be waited for.
pub data Thread : Type 0 where
  listener : Thread
  channel : ℕ → Thread

-- `pthread_join` and `is_running`, in a world where the threads run.
module _ {World : Type 0} (join : Thread → World → Outcome World) where
  -- The loop over the channels; each round adds one to `joined_channels`.
  unfoldable pub join_channels : ℕ → ℕ → ℕ → World → Outcome World
  join_channels max_created_threads zero i w = ok w
  join_channels max_created_threads (suc left) i w = join (channel i) w >>= λ w'.
      join_channels max_created_threads left ((i + 1) % max_created_threads) w'

  unfoldable pub close_threads : ℕ → World → Outcome World
  unfolding join_channels
  close_threads max_created_threads w =
      join listener w >>= λ w'. join_channels max_created_threads max_created_threads 0 w'

  -- The call of `check_strat`: on each way out, what it returns is read and the threads are closed.
  unfoldable pub check_and_close : Outcome ℕ → ℕ → World → Outcome (ℕ × World)
  unfolding close_threads
  check_and_close checked max_created_threads w =
      checked >>= λ current_val. close_threads max_created_threads w >>= λ w'. ok (current_val, w')

  -- Whether the pattern of an `int` is that of a number above zero.
  abbrev pub positive : ℕ → Bool
  positive n = ltb 0 n && ltb n 2147483648

  -- `fuzz`. `by_time` and `by_packets` are the loop of `check_strat` with the clock and with the
  -- counter, and `w` is the world when that loop has ended.
  unfoldable pub fuzz :
      (World → Bool)
      → Sizes
      → (ℕ → Bool)
      → Outcome ℕ
      → Outcome ℕ
      → ℕ
      → Threads
      → World
      → Outcome (ℕ × Threads × World)
  unfolding create_channel_thread check_and_close close_threads
  fuzz is_running sizes moves by_time by_packets strat t w =
      create_channel_thread sizes moves 1 (record t { max_created_threads = 0 }) >>= λ t'.
      (if strat == b't'
        then check_and_close by_time t'.max_created_threads w
        else if strat == b'n'
        then check_and_close by_packets t'.max_created_threads w
        else ok (0, w))
      >>= λ (retval, w').
          (if positive retval || not (is_running w')
            then close_threads t'.max_created_threads w'
            else ok w')
          >>= λ w''. ok (retval, t', w'')
