-- ===== src/Threads/Creation.antt =====
-- The arrays of the threads: enough for the first thread, and never for a second.
use amqpgram.Base.{
  ℕ, ◌+◌, ◌*◌, ◌≡◌, ◌≤◌, ◌<◌, ◌∙◌, refl, arith, Bool, [], ◌∷◌, ◌++◌, none, some, Bool-cases,
  Option-cases, inl, inr,
}
use native.Mathlib.Nat.{mul-le-mul}
use amqpgram.Base.Outcome.{Outcome, ok, fault, stuck, ◌>>=◌}
use amqpgram.Threads.{
  Heap, allocate, reallocarray, write_element, Sizes, Threads, first_arrays, larger_arrays,
  start_thread, create_channel_thread,
}

module _ (sizes : Sizes) (moves : ℕ → Bool) where
  write_fits :
      (p element_size index size : ℕ) (h : Heap)
      → h.size_of p ≡ some size
      → (index + 1) * element_size ≤ size
      → write_element p element_size index h ≡ ok h
  unfolding write_element
  write_fits p element_size index size h e l = ground (arith, e)

  pub first_thread :
      (t : Threads)
      → t.max_created_threads ≡ 0
      → create_channel_thread sizes moves 1 t
        ≡ ok (record (first_arrays sizes moves t) {
          max_created_threads = 1;
          started = t.started ++ 0 ∷ [];
        })
  unfolding create_channel_thread first_arrays start_thread write_element allocate
  first_thread t e = rw e (ground arith)

  -- A step that faults where the object at `p` is gone, and where it was resized in place, faults.
  resized :
      {B : Type 0} (p size : ℕ) (h : Heap) (f : ℕ × Heap → Outcome B)
      → p < h.next
      → ((h' : Heap) → h'.size_of p ≡ none → f (h.next, h') ≡ fault)
      → ((h' : Heap) → p < h'.next → h'.size_of p ≡ some size → f (p, h') ≡ fault)
      → reallocarray moves p size h >>= f ≡ fault
  unfolding reallocarray
  resized p size h f l gone stays = elim (Option-cases (h.size_of p)) [
    | inl absent ↦ rw (absent, ◌>>=◌)
    | inr (old, there) ↦ elim (Bool-cases (moves h.next)) [
      | inl moved ↦ rw (there, moved, ◌>>=◌) (gone _ (ground arith))
      | inr kept ↦ rw (there, kept, ◌>>=◌) (stays _ (omega arith) (ground arith))
    ]
  ]

  resized_anywhere :
      {B : Type 0} (p size : ℕ) (h : Heap) (f : ℕ × Heap → Outcome B)
      → p < h.next
      → ((q : ℕ) (h' : Heap) → q < h'.next → f (q, h') ≡ fault)
      → reallocarray moves p size h >>= f ≡ fault
  unfolding reallocarray
  resized_anywhere p size h f l next = elim (Option-cases (h.size_of p)) [
    | inl absent ↦ rw (absent, ◌>>=◌)
    | inr (old, there) ↦ elim (Bool-cases (moves h.next)) [
      | inl moved ↦ rw (there, moved, ◌>>=◌) (next _ _ (omega arith))
      | inr kept ↦ rw (there, kept, ◌>>=◌) (next _ _ (omega arith))
    ]
  ]

  lost :
      {B : Type 0} (p size : ℕ) (h : Heap) (f : ℕ × Heap → Outcome B)
      → h.size_of p ≡ none
      → reallocarray moves p size h >>= f ≡ fault
  unfolding reallocarray
  lost p size h f absent = rw (absent, ◌>>=◌)

  unwritable :
      {B : Type 0} (p element_size index : ℕ) (h : Heap) (f : Heap → Outcome B)
      → h.size_of p ≡ none
      → write_element p element_size index h >>= f ≡ fault
  unfolding write_element
  unwritable p element_size index h f absent = rw (absent, ◌>>=◌)

  too_small :
      {B : Type 0} (p element_size index size : ℕ) (h : Heap) (f : Heap → Outcome B)
      → h.size_of p ≡ some size
      → size < (index + 1) * element_size
      → write_element p element_size index h >>= f ≡ fault
  unfolding write_element
  too_small p element_size index size h f there l = ground arith

  bind_assoc :
      {A B C : Type 0} (m : Outcome A) (f : A → Outcome B) (g : B → Outcome C)
      → (m >>= f >>= g) ≡ (m >>= λ a. f a >>= g)
  bind_assoc (ok a) f g = refl
  bind_assoc fault f g = refl
  bind_assoc stuck f g = refl

  narrow :
      (size index thread mutex : ℕ)
      → size ≤ index
      → 0 < mutex
      → 2 * thread ≤ mutex
      → thread * (size * 2) < (index + 1) * mutex
  narrow size index thread mutex m h h' =
      let l : size * (2 * thread) ≤ index * mutex = mul-le-mul m h' in
      let e : thread * (size * 2) ≡ size * (2 * thread) = grind arith in
      let e' : (index + 1) * mutex ≡ index * mutex + mutex = grind arith in omega arith

  never_larger :
      (t : Threads)
      → t.channel_mutexes < t.heap.next
      → t.threads_array_size ≤ t.max_created_threads
      → 0 < sizes.mutex
      → 2 * sizes.thread ≤ sizes.mutex
      → (larger_arrays sizes moves t >>= start_thread sizes moves) ≡ fault
  unfolding larger_arrays start_thread
  never_larger t l m h h' =
      let count = t.threads_array_size * 2 in
      bind_assoc (reallocarray moves t.channel_mutexes (sizes.mutex * count) t.heap) _ _
      ∙ resized_anywhere t.channel_mutexes _ t.heap _ l λ p h₁ within.
        bind_assoc (reallocarray moves p (sizes.cond * count) h₁) _ _
        ∙ resized p _ h₁ _ within
            (λ h₂ gone.
              bind_assoc (reallocarray moves p (sizes.pointer * count) h₂) _ _ ∙ lost p _ h₂ _ gone)
            λ h₂ within₂ there₂.
              bind_assoc (reallocarray moves p (sizes.pointer * count) h₂) _ _
              ∙ resized p _ h₂ _ within₂
                  (λ h₃ gone.
                    bind_assoc (reallocarray moves p (sizes.thread * count) h₃) _ _
                    ∙ lost p _ h₃ _ gone)
                  λ h₃ within₃ there₃.
                    bind_assoc (reallocarray moves p (sizes.thread * count) h₃) _ _
                    ∙ resized p _ h₃ _ within₃ (λ h₄ gone. unwritable p _ _ h₄ _ gone)
                        λ h₄ within₄ there₄. too_small p _ _ _ h₄ _ there₄ (
                          narrow t.threads_array_size t.max_created_threads sizes.thread sizes.mutex
                            m h h')

  -- With no thread yet, the call with `reset` gives a mutex, a condition, a packet and an identifier
  -- their places in four new arrays, and starts the thread of channel 0. Where two identifiers of
  -- threads are no larger than a mutex, the next call faults, however the allocator moves objects: all
  -- four arrays are made from that of the mutexes, which is gone, or too small for a second mutex.
  pub create_channel_thread_lem :
      (t : Threads)
      → t.max_created_threads ≡ 0
      → 0 < sizes.mutex
      → 2 * sizes.thread ≤ sizes.mutex
      → (t' : Threads) × (create_channel_thread sizes moves 1 t ≡ ok t')
        × (t'.max_created_threads ≡ 1)
        × (t'.started ≡ t.started ++ 0 ∷ [])
        × (t'.heap.size_of t'.channel_mutexes ≡ some sizes.mutex)
        × (t'.heap.size_of t'.channel_conds ≡ some sizes.cond)
        × (t'.heap.size_of t'.channel_packets ≡ some sizes.pointer)
        × (t'.heap.size_of t'.channels ≡ some sizes.thread)
        × (create_channel_thread sizes moves 0 t' ≡ fault)
  unfolding create_channel_thread first_arrays allocate
  create_channel_thread_lem t e h h' =
      let t' : Threads = record (first_arrays sizes moves t) {
        max_created_threads = 1;
        started = t.started ++ 0 ∷ [];
      } in
      (
        t',
        first_thread t e,
        refl,
        refl,
        ground arith,
        ground arith,
        ground arith,
        ground arith,
        never_larger t' (omega arith) (omega arith) h h',
      )
