-- ===== src/Core0/Sched/Threads.antt =====
-- `sched_create_thread` and `sched_unblock` of Core-0/sched/sched.c.
use hik.Prelude.{
  ℕ, ◌+◌, ◌<◌, ◌≡◌, refl, sym, ◌≢◌, inl, inr, Bool, ◌&&◌, ◌||◌, some, arith, ◌==◌, Bool-cases,
  Option-cases, update, first, first-some, first-eq_some, ok, Returns, u32, u64, success, minus_one,
}
use hik.Core0.Mm.{MmState, mm_alloc, mem_type_kernel}
use hik.Core0.Sched.{
  SchedState, Tasks, sched_create_thread, sched_unblock, find_slot, find_blocked, max_threads,
  new_tcb, stack_size, thread_state_ready, thread_state_blocked, thread_state_terminated,
}

-- No slot of the table holds the id.
abbrev pub Lost : SchedState → ℕ → Type 0
Lost s id = (i : ℕ) → i < max_threads → (s.threads i).thread_id ≢ id

find_slot_zero : (s : SchedState) → (s.threads 0).state ≡ thread_state_ready → find_slot s ≡ some 0
unfolding find_slot
find_slot_zero s e =
    first-eq_some max_threads
      (λ i. (s.threads i).state == thread_state_terminated || (s.threads i).state == 0) 0
      (omega arith) (ground arith) (λ k l. elim l [ ])

create-runs :
    (t : Tasks) (d p a r base : ℕ) (m : MmState)
    → t.sched.lock ≡ 0
    → (t.sched.threads 0).state ≡ thread_state_ready
    → mm_alloc stack_size 16 mem_type_kernel d t.mm ≡ ok base m
    → base ≢ 0
    → sched_create_thread d p a r t
      ≡ ok t.sched.next_thread_id (record {
        sched = record (t.sched) {
          next_thread_id = u64 (t.sched.next_thread_id + 1);
          threads = update t.sched.threads 0 (new_tcb t.sched.next_thread_id d p a r base);
          num_threads = u32 (t.sched.num_threads + 1);
          lock = 0;
        };
        mm = m;
      })
unfolding sched_create_thread find_slot
create-runs t d p a r base m free ready e ne = ground (arith, find_slot_zero (t.sched) ready)

-- A ready thread counts as a free slot. Where slot 0 holds a ready thread with an id that no other
-- slot holds and the stack can be allocated, `sched_create_thread` writes the new thread over it:
-- the old thread's id is in no slot any more, while the number of threads goes up by one.
pub sched_create_thread_overwrites :
    (t : Tasks) (d p a r base old : ℕ) (m : MmState)
    → t.sched.lock ≡ 0
    → (t.sched.threads 0).state ≡ thread_state_ready
    → (t.sched.threads 0).thread_id ≡ old
    → ((i : ℕ) → i ≢ 0 → (t.sched.threads i).thread_id ≢ old)
    → old ≢ t.sched.next_thread_id
    → mm_alloc stack_size 16 mem_type_kernel d t.mm ≡ ok base m
    → base ≢ 0
    → Returns
        (λ id u.
          Lost u.sched old
          × ((u.sched.threads 0).thread_id ≡ id)
          × (u.sched.num_threads ≡ u32 (t.sched.num_threads + 1)))
        (sched_create_thread d p a r t)
sched_create_thread_overwrites t d p a r base old m free ready named only differ e ne =
    rw (create-runs t d p a r base m free ready e ne) (
      λ i l. elim (Bool-cases (0 == i)) [
        | inl z ↦ rw z (λ q. differ (sym q))
        | inr n ↦ rw n (only i (ground arith))
      ],
      refl,
      refl,
    )

unblock-runs :
    (s : SchedState) (id i : ℕ)
    → s.lock ≡ 0
    → find_blocked id s ≡ some i
    → let c = s.threads i in
      sched_unblock id s
      ≡ ok success
          (record s { threads = update s.threads i (record c { state = thread_state_ready }) })
unfolding sched_unblock find_blocked
unblock-runs s id i free e = ground arith

-- `sched_unblock` with the lock free returns and answers 0 exactly when some thread of that id is
-- blocked. Then the first such thread is ready and the other ones are unchanged; else all are.
pub sched_unblock_lem :
    (s : SchedState) (id : ℕ)
    → s.lock ≡ 0
    → ((i : ℕ)
        → i < max_threads
        → (s.threads i).thread_id ≡ id
        → (s.threads i).state ≡ thread_state_blocked
        → ((k : ℕ)
            → k < i
            → (s.threads k).thread_id ≡ id
            → (s.threads k).state ≢ thread_state_blocked)
        → Returns
            (λ r t.
              (r ≡ success)
              × ((t.threads i).state ≡ thread_state_ready)
              × ((k : ℕ) → k ≢ i → t.threads k ≡ s.threads k))
            (sched_unblock id s))
      × (((i : ℕ)
            → i < max_threads
            → (s.threads i).thread_id ≡ id
            → (s.threads i).state ≢ thread_state_blocked)
          → sched_unblock id s ≡ ok minus_one s)
unfolding sched_unblock find_blocked
sched_unblock_lem s id free =
    let test : ℕ → Bool =
      λ i. (s.threads i).thread_id == id && ((s.threads i).state == thread_state_blocked) in
    (
      λ i l named blocked before.
          let e : first max_threads test ≡ some i =
            first-eq_some max_threads test i l (ground arith) (λ k m. ground (arith, before k m)) in
          rw (unblock-runs s id i free e) (refl, ground arith, λ k ne. ground arith),
      λ none_blocked. elim (Option-cases (first max_threads test)) [
        | inl e ↦ ground arith
        | inr (i, e) ↦
            let f = first-some max_threads test i e in
            absurd (ground (arith, f.1, none_blocked i f.0))
      ],
    )
