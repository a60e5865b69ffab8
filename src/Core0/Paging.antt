-- ===== src/Core0/Paging.antt =====
-- Core-0/include/isolation.h and Core-0/isolation/isolation.c: the page tables of the domains and the
-- call gates, over the memory manager and the capability system that they call. A page table is its
-- address, and `pages` holds the 512 entries of the table at each address. The processor's cache of
-- translations is not modelled.
pub mod Unmap
pub mod Access
pub mod Gates
pub mod Denied
mod Tests
use hik.Prelude.{
  ℕ, zero, suc, ◌+◌, ◌-◌, ◌*◌, ◌/◌, ◌%◌, ◌^◌, ◌≤◌, ◌<◌, bit_and, bit_or, ◌≡◌, refl, sym, ap, ◌∙◌,
  ◌≢◌, ◌↔◌, ◌⊎◌, inl, inr, Bool, true, false, not, ◌&&◌, ◌||◌, Option, none, some, List, [], ◌∷◌,
  ◌++◌, arith, ltb, leb, ◌==◌, if◌then◌else◌, Bool-cases, Option-cases, Nat-cases, update,
  update_here, update_else, first, count, first-some, first-none, first-eq_some, first_found,
  first_unique, first-ext, Run, ok, hang, fault, Cmd, and_then, ◌>>=◌, ◌>>◌, pure, gets, modify,
  call, Returns, Returns-mono, Returns-and_then, within, u32, u64, dec32, dec64, sub64, ℤ, pos,
  negsuc, success, minus_one, minus_two, minus_three, minus_four, minus_five, is_success, length,
  length-append, values, erase, contains, length-values, values-ext, values-append, values-erase,
}
use hik.Core0.Mm.{MmState, mm_alloc, mm_free, mem_type_kernel, page_size, pages_of}
use hik.Core0.Capability.{
  CapSystem, cap_check, cap_type_memory, cap_type_service, cap_perm_read, cap_perm_write,
  cap_perm_execute, max_domains,
}

abbrev pub pt_flag_present : ℕ
pt_flag_present = 0x01

abbrev pub pt_flag_writable : ℕ
pt_flag_writable = 0x02

abbrev pub pt_flag_user : ℕ
pt_flag_user = 0x04

abbrev pub pt_flag_pwt : ℕ
pt_flag_pwt = 0x08

abbrev pub pt_flag_pcd : ℕ
pt_flag_pcd = 0x10

abbrev pub max_call_gates : ℕ
max_call_gates = 16

pub record DomainPageTable : Type 0 where
  pub pml4 : ℕ
  pub domain_id : ℕ
  pub capabilities : ℕ
  pub flags : ℕ

abbrev pub zero_table : DomainPageTable
zero_table = record { pml4 = 0; domain_id = 0; capabilities = 0; flags = 0 }

pub record CallGate : Type 0 where
  pub offset_low : ℕ
  pub selector : ℕ
  pub ist : ℕ
  pub type : ℕ
  pub dpl : ℕ
  pub present : ℕ
  pub offset_high : ℕ

abbrev pub zero_gate : CallGate
zero_gate = record {
  offset_low = 0;
  selector = 0;
  ist = 0;
  type = 0;
  dpl = 0;
  present = 0;
  offset_high = 0;
}

pub record CallGateTable : Type 0 where
  pub gates : ℕ → CallGate
  pub num_gates : ℕ
  pub lock : ℕ

abbrev pub Pages : Type 0
Pages = ℕ → ℕ → ℕ

pub record Paging : Type 0 where
  pub tables : ℕ → DomainPageTable
  pub pages : Pages
  pub call_gates : CallGateTable
  pub mm : MmState
  pub caps : CapSystem

abbrev pub on_mm : {A : Type 0} → Cmd MmState A → Cmd Paging A
on_mm = within (λ s. s.mm) (λ m s. record s { mm = m })

abbrev pub on_caps : {A : Type 0} → Cmd CapSystem A → Cmd Paging A
on_caps = within (λ s. s.caps) (λ c s. record s { caps = c })

unfoldable pub isolation_init : Cmd Paging ℤ
isolation_init s = pure success (record s {
  tables = λ _. zero_table;
  call_gates = record { gates = λ _. zero_gate; num_gates = 0; lock = 0 };
})

abbrev pub clear_page : ℕ → Paging → Paging
clear_page pt s = record s { pages = update s.pages pt (λ _. 0) }

unfoldable pub pt_alloc_page_table : Cmd Paging ℕ
pt_alloc_page_table = do
  phys_addr ← on_mm (mm_alloc page_size page_size mem_type_kernel 0)
  if phys_addr == 0 then pure 0 else (do modify (clear_page phys_addr); pure phys_addr)

unfoldable pub pt_free_page_table : ℕ → Cmd Paging (Unit {0})
pt_free_page_table pt = if pt == 0 then pure tt else (do on_mm (mm_free pt); pure tt)

unfoldable pub pt_clear_page_table : ℕ → Cmd Paging ℤ
pt_clear_page_table pt =
    if pt == 0 then pure minus_one else (do modify (clear_page pt); pure success)

unfoldable pub pt_get_entry : (pt index : ℕ) → Pages → ℕ
pt_get_entry pt index m = if pt == 0 || leb 512 index then 0 else m pt index

unfoldable pub pt_set_entry : (pt index entry : ℕ) → Pages → Pages
pt_set_entry pt index entry m =
    if not (pt == 0) && ltb index 512 then update m pt (update (m pt) index entry) else m

-- `pte & PT_FLAG_PRESENT`
abbrev pub is_present : ℕ → Bool
is_present entry = not (bit_and entry pt_flag_present == 0)

unfoldable pub pt_is_entry_present : (pt index : ℕ) → Pages → Bool
pt_is_entry_present pt index m = if pt == 0 || leb 512 index then false else is_present (m pt index)

unfoldable pub pt_walk_get_pml4 : (domain_id : ℕ) → Paging → ℕ
pt_walk_get_pml4 domain_id s = if leb max_domains domain_id then 0 else (s.tables domain_id).pml4

-- `(vaddr >> shift) & 0x1FF`
abbrev pub pml4_index : ℕ → ℕ
pml4_index vaddr = vaddr / 2 ^ 39 % 512

abbrev pub pdpt_index : ℕ → ℕ
pdpt_index vaddr = vaddr / 2 ^ 30 % 512

abbrev pub pd_index : ℕ → ℕ
pd_index vaddr = vaddr / 2 ^ 21 % 512

abbrev pub pt_index : ℕ → ℕ
pt_index vaddr = vaddr / 2 ^ 12 % 512

abbrev pub pte_get_address : ℕ → ℕ
pte_get_address pte = bit_and pte 0x000FFFFFFFFFF000

-- One level of a walk: the table that the entry points to, or null.
unfoldable pub follow : (table index : ℕ) → Pages → ℕ
follow table index m =
    if table == 0
    then 0
    else if is_present (m table index)
    then pte_get_address (m table index)
    else 0

abbrev pub pt_walk_get_pdpt : (pml4 vaddr : ℕ) → Pages → ℕ
pt_walk_get_pdpt pml4 vaddr = follow pml4 (pml4_index vaddr)

abbrev pub pt_walk_get_pd : (pdpt vaddr : ℕ) → Pages → ℕ
pt_walk_get_pd pdpt vaddr = follow pdpt (pdpt_index vaddr)

abbrev pub pt_walk_get_pt : (pd vaddr : ℕ) → Pages → ℕ
pt_walk_get_pt pd vaddr = follow pd (pd_index vaddr)

-- The page table of the last level, or null.
abbrev pub walk : (pml4 vaddr : ℕ) → Pages → ℕ
walk pml4 vaddr m = pt_walk_get_pt (pt_walk_get_pd (pt_walk_get_pdpt pml4 vaddr m) vaddr m) vaddr m

-- A null table on the way is passed on by the next level, which the source leaves early.
unfoldable pub pt_walk_get_pte : (pml4 vaddr : ℕ) → Pages → ℕ
pt_walk_get_pte pml4 vaddr m =
    let pt = walk pml4 vaddr m in if pt == 0 then 0 else m pt (pt_index vaddr)

unfoldable pub isolation_create_page_tables : (domain_id flags : ℕ) → Cmd Paging ℤ
isolation_create_page_tables domain_id flags =
    if leb max_domains domain_id then pure minus_one else (do
      pml4 ← pt_alloc_page_table
      if pml4 == 0 then pure minus_one else (do
        modify (λ s. record s {
          tables =
              update s.tables domain_id
                (record { pml4 = pml4; domain_id = domain_id; capabilities = 0; flags = flags });
        })
        pure success))

-- Only the table of the first level is freed.
unfoldable pub isolation_destroy_page_tables : (domain_id : ℕ) → Cmd Paging ℤ
isolation_destroy_page_tables domain_id = if leb max_domains domain_id then pure minus_one else (do
  pml4 ← gets (λ s. (s.tables domain_id).pml4)
  if pml4 == 0 then pure minus_one else (do
    pt_free_page_table pml4
    modify (λ s. record s { tables = update s.tables domain_id zero_table })
    pure success))

-- `map_type_t`
pub data MapType : Type 0 where
  map_type_code : MapType
  map_type_data : MapType
  map_type_readonly : MapType
  map_type_device : MapType
  map_type_shared : MapType

abbrev pub map_flags : MapType → ℕ
map_flags map_type_code = bit_or pt_flag_present pt_flag_user
map_flags map_type_data = bit_or pt_flag_present (bit_or pt_flag_writable pt_flag_user)
map_flags map_type_readonly = bit_or pt_flag_present pt_flag_user
map_flags map_type_device =
    bit_or pt_flag_present (bit_or (bit_or pt_flag_writable pt_flag_pcd) pt_flag_pwt)
map_flags map_type_shared = bit_or pt_flag_present (bit_or pt_flag_writable pt_flag_user)

-- The table of the next level, made where there is none; 0 where that fails.
unfoldable pub get_or_create : (table index : ℕ) → Cmd Paging ℕ
get_or_create table index = do
  found ← gets (λ s. follow table index s.pages)
  if not (found == 0) then pure found else (do
    new ← pt_alloc_page_table
    if new == 0 then pure 0 else (do
      modify (λ s. record s {
        pages =
            pt_set_entry table index
              (bit_or (bit_or (bit_or new pt_flag_present) pt_flag_writable) pt_flag_user) s.pages;
      })
      pure new))

-- One round of the loop of `isolation_map_memory`.
unfoldable pub map_page : (pml4 virt phys flags : ℕ) → Cmd Paging ℤ
map_page pml4 virt phys flags = do
  pdpt ← get_or_create pml4 (pml4_index virt)
  if pdpt == 0 then pure minus_one else (do
    pd ← get_or_create pdpt (pdpt_index virt)
    if pd == 0 then pure minus_one else (do
      pt ← get_or_create pd (pd_index virt)
      if pt == 0 then pure minus_one else (do
        modify
            (λ s. record s { pages = pt_set_entry pt (pt_index virt) (bit_or phys flags) s.pages })
        pure success)))

-- The rounds from page `i` on.
unfoldable pub map_pages : (rounds i pml4 virt phys flags : ℕ) → Cmd Paging ℤ
map_pages zero i pml4 virt phys flags = pure success
map_pages (suc k) i pml4 virt phys flags = do
  r ← map_page pml4 (u64 (virt + i * page_size)) (u64 (phys + i * page_size)) flags
  if is_success r then map_pages k (i + 1) pml4 virt phys flags else pure r

unfoldable pub isolation_map_memory :
    (domain_id virt_addr phys_addr size : ℕ) → MapType → (cap_id : ℕ) → Cmd Paging ℤ
isolation_map_memory domain_id virt_addr phys_addr size map_type cap_id =
    if leb max_domains domain_id then pure minus_one else (do
      r ← on_caps (cap_check cap_id cap_type_memory (bit_or cap_perm_read cap_perm_write))
      if not (is_success r) then pure minus_one else (do
        pml4 ← gets (λ s. (s.tables domain_id).pml4)
        if pml4 == 0
            then pure minus_one
            else map_pages (pages_of size) 0 pml4 virt_addr phys_addr (map_flags map_type)))

-- One round of the loop of `isolation_unmap_memory`.
unfoldable pub unmap_page : (pml4 virt : ℕ) → Pages → Pages
unmap_page pml4 virt m =
    let pt = walk pml4 virt m in if pt == 0 then m else pt_set_entry pt (pt_index virt) 0 m

unfoldable pub unmap_pages : (rounds i pml4 virt : ℕ) → Pages → Pages
unmap_pages zero i pml4 virt m = m
unmap_pages (suc k) i pml4 virt m =
    unmap_pages k (i + 1) pml4 virt (unmap_page pml4 (u64 (virt + i * page_size)) m)

unfoldable pub isolation_unmap_memory : (domain_id virt_addr size : ℕ) → Paging → ℤ × Paging
isolation_unmap_memory domain_id virt_addr size s =
    let pml4 = (s.tables domain_id).pml4 in
    if leb max_domains domain_id || pml4 == 0
    then (minus_one, s)
    else (success, record s { pages = unmap_pages (pages_of size) 0 pml4 virt_addr s.pages })

-- The tests on one entry.
unfoldable pub entry_allows : (access pte : ℕ) → Bool
entry_allows access pte =
    if not (is_present pte)
    then false
    else if not (bit_and access 0x01 == 0) && (bit_and pte pt_flag_user == 0)
    then false
    else if not (bit_and access 0x02 == 0) && (bit_and pte pt_flag_writable == 0)
    then false
    else true

unfoldable pub verify_pages : (rounds i pml4 addr access : ℕ) → Pages → ℤ
verify_pages zero i pml4 addr access m = success
verify_pages (suc k) i pml4 addr access m =
    let rest = verify_pages k (i + 1) pml4 addr access m in
    if entry_allows access (pt_walk_get_pte pml4 (u64 (addr + i * page_size)) m)
    then rest
    else minus_one

unfoldable pub isolation_verify_access : (domain_id addr size access : ℕ) → Paging → ℤ
isolation_verify_access domain_id addr size access s =
    let pml4 = (s.tables domain_id).pml4 in
    if leb max_domains domain_id || pml4 == 0
    then minus_one
    else verify_pages (pages_of size) 0 pml4 addr access s.pages

unfoldable pub gate_lock : Cmd Paging (Unit {0})
gate_lock s =
    if s.call_gates.lock == 0
    then modify (λ t. record t { call_gates = record (t.call_gates) { lock = 1 } }) s
    else hang

unfoldable pub gate_unlock : Cmd Paging (Unit {0})
gate_unlock = modify λ s. record s { call_gates = record (s.call_gates) { lock = 0 } }

abbrev pub new_gate : (entry_point : ℕ) → CallGate
new_gate entry_point = record {
  offset_low = bit_and entry_point 0xFFFF;
  selector = 0x08;
  ist = 0;
  type = 0xC;
  dpl = 3;
  present = 1;
  offset_high = bit_and (entry_point / 2 ^ 16) 0xFFFFFFFFFFFF;
}

-- `gates[num_gates++] = gate`
abbrev pub append_gate : CallGate → CallGateTable → CallGateTable
append_gate g t = record t {
  gates = update t.gates t.num_gates g;
  num_gates = u32 (t.num_gates + 1);
}

unfoldable pub isolation_create_call_gate : (target_domain entry_point cap_id : ℕ) → Cmd Paging ℤ
unfolding gate_lock gate_unlock
isolation_create_call_gate target_domain entry_point cap_id =
    if leb max_domains target_domain then pure minus_one else (do
      r ← on_caps (cap_check cap_id cap_type_service cap_perm_execute)
      if not (is_success r) then pure minus_one else (do
        gate_lock
        gate_id ← gets (λ s. s.call_gates.num_gates)
        if leb max_call_gates gate_id then (do gate_unlock; pure minus_one) else (do
          modify (λ s. record s { call_gates = append_gate (new_gate entry_point) s.call_gates })
          gate_unlock
          pure (pos gate_id))))

unfoldable pub isolation_call_gate : (gate_id : ℕ) → Paging → ℤ
isolation_call_gate gate_id s =
    if leb s.call_gates.num_gates gate_id
    then minus_one
    else if (s.call_gates.gates gate_id).present == 0
    then minus_one
    else success

unfoldable pub isolation_get_page_tables : (domain_id : ℕ) → Paging → Option DomainPageTable
isolation_get_page_tables domain_id s =
    if leb max_domains domain_id then none else some (s.tables domain_id)

abbrev pub user_base : ℕ
user_base = 0x0000000000400000

abbrev pub kernel_code_base : ℕ
kernel_code_base = 0xFFFFFFFF80000000

unfoldable pub pt_setup_identity_map : (domain_id start size : ℕ) → Cmd Paging ℤ
pt_setup_identity_map domain_id start size =
    isolation_map_memory domain_id start start size map_type_data 0

unfoldable pub pt_setup_kernel_map : (domain_id kernel_start kernel_size : ℕ) → Cmd Paging ℤ
pt_setup_kernel_map domain_id kernel_start kernel_size =
    isolation_map_memory domain_id kernel_code_base kernel_start kernel_size map_type_code 0

unfoldable pub pt_setup_user_map : (domain_id user_start user_size : ℕ) → Cmd Paging ℤ
pt_setup_user_map domain_id user_start user_size =
    isolation_map_memory domain_id user_base user_start user_size map_type_data 0

unfoldable pub is_kernel_address : ℕ → Bool
is_kernel_address addr = leb 0xFFFF800000000000 addr

unfoldable pub is_user_address : ℕ → Bool
is_user_address addr = leb user_base addr && ltb addr 0x00007FFFFFFFFFFF

unfoldable pub is_device_address : ℕ → Bool
is_device_address addr = leb 0xFFFFFE0000000000 addr
