-- ===== src/Core0/Process/Create.antt =====
-- `process_create` of Core-0/process/process.c.
use hik.Prelude.{
  ℕ, ◌+◌, ◌≡◌, refl, some, arith, ◌==◌, update_here, first-some, first-eq_some, ok, Returns, u32,
  u64,
}
use hik.Core0.Paging.{Paging, map_type_code, map_type_data}
use hik.Core0.Paging.Denied.{FreeAreEmpty, map_memory-denied}
use hik.Core0.Process.{
  Kernel, max_processes, find_slot, new_process, write_process, map_process, provide,
  process_create,
}

-- None of the four mappings is made.
map_process-denied :
    (s : Paging) (d phys : ℕ)
    → FreeAreEmpty s.caps
    → s.caps.lock ≡ 0
    → map_process d phys s ≡ ok tt s
unfolding map_process
map_process-denied s d phys empty free =
    let m1 = map_memory-denied s d 0x400000 phys 0x10000 map_type_code empty free in
    let m2 =
      map_memory-denied s d 0x410000 (u64 (phys + 0x10000)) 0x10000 map_type_data empty free in
    let m3 =
      map_memory-denied s d 0x420000 (u64 (phys + 0x20000)) 0x10000 map_type_data empty free in
    let m4 =
      map_memory-denied s d 0x430000 (u64 (phys + 0x30000)) 0x10000 map_type_data empty free in
    ground (arith, m1, m2, m3, m4)

-- The kernel after the process has been written.
abbrev created : (k : Kernel) (i d argc : ℕ) → Paging → Kernel
created k i d argc t = record k {
  manager = record (write_process i k.current_pid d argc k.manager) {
    num_processes = u32 (k.manager.num_processes + 1);
  };
  paging = t;
}

create-runs :
    (k : Kernel) (argc i phys d : ℕ) (t : Paging)
    → k.manager.lock ≡ 0
    → find_slot k.manager ≡ some i
    → provide k.paging ≡ ok (some (phys, d)) t
    → map_process d phys t ≡ ok tt t
    → process_create argc k ≡ ok k.manager.next_pid (created k i d argc t)
unfolding process_create write_process find_slot
create-runs k argc i phys d t free slot e m = ground (arith, free, slot, e, m)

slot-again :
    (k : Kernel) (i d argc : ℕ) (t : Paging)
    → find_slot k.manager ≡ some i
    → find_slot (created k i d argc t).manager ≡ some i
unfolding find_slot write_process
slot-again k i d argc t e =
    let h = first-some max_processes (λ j. (k.manager.processes j).state == 0) i e in
    first-eq_some max_processes (λ j. ((created k i d argc t).manager.processes j).state == 0) i h.0
      (ground arith) (λ j l. ground (arith, h.2 j l))

-- `process_create`, with the lock of the process table free, where a slot is free and the memory, the
-- domain and the page tables can be had, and where after that the lock of the capability system is
-- free and the free slots of its domain table hold no handles, returns the next process id. But none
-- of the process's memory is mapped, since every mapping is refused; and the slot counts as free as
-- before, so that the next process is written over this one.
pub process_create_overwrites :
    (k : Kernel) (argc i phys d : ℕ) (t : Paging)
    → k.manager.lock ≡ 0
    → find_slot k.manager ≡ some i
    → provide k.paging ≡ ok (some (phys, d)) t
    → FreeAreEmpty t.caps
    → t.caps.lock ≡ 0
    → Returns
        (λ pid r.
          (pid ≡ k.manager.next_pid)
          × (r.manager.processes i ≡ new_process pid k.current_pid d argc)
          × (r.paging ≡ t)
          × (find_slot r.manager ≡ some i))
        (process_create argc k)
unfolding write_process
process_create_overwrites k argc i phys d t free slot e empty unlocked =
    rw (create-runs k argc i phys d t free slot e (map_process-denied t d phys empty unlocked)) (
      refl,
      update_here k.manager.processes i (new_process k.manager.next_pid k.current_pid d argc),
      refl,
      slot-again k i d argc t slot,
    )
