-- ===== src/Core0/Capability.antt =====
-- Core-0/include/capability.h and Core-0/capability/capability.c: the capability table, the domain
-- table, and the operations on them. A pointer into a table is the index of its entry.
pub mod Lookup
pub mod Locks
pub mod Space
pub mod Invariant
pub mod Preservation
mod Runs
pub mod Aliasing
mod Tests
use hik.Prelude.{
  ℕ, zero, suc, ◌+◌, ◌-◌, ◌*◌, ◌%◌, Bool, ◌&&◌, ◌||◌, not, Option, none, some, bit_and, ltb, leb,
  ◌==◌, if◌then◌else◌, update, first, u32, dec32, ℤ, success, minus_one, minus_two, minus_three,
  is_success, Cmd, hang, pure, ◌>>=◌, ◌>>◌, gets, modify, call,
}

-- Capability types. A C enum is an integer, and a cleared entry holds 0, which is none of them.
abbrev pub cap_type_memory : ℕ
cap_type_memory = 1

abbrev pub cap_type_irq : ℕ
cap_type_irq = 3

abbrev pub cap_type_service : ℕ
cap_type_service = 5

abbrev pub cap_perm_read : ℕ
cap_perm_read = 0x01

abbrev pub cap_perm_write : ℕ
cap_perm_write = 0x02

abbrev pub cap_perm_execute : ℕ
cap_perm_execute = 0x04

abbrev pub cap_perm_grant : ℕ
cap_perm_grant = 0x08

abbrev pub max_capabilities : ℕ
max_capabilities = 1024

abbrev pub max_domains : ℕ
max_domains = 256

abbrev pub domain_cap_space_size : ℕ
domain_cap_space_size = 64

abbrev pub cap_magic : ℕ
cap_magic = 0x43415000

pub record Capability : Type 0 where
  pub magic : ℕ
  pub type : ℕ
  pub permissions : ℕ
  pub resource_id : ℕ
  pub resource_base : ℕ
  pub resource_size : ℕ
  pub owner_domain : ℕ
  pub ref_count : ℕ
  pub flags : ℕ

abbrev pub zero_capability : Capability
zero_capability = record {
  magic = 0;
  type = 0;
  permissions = 0;
  resource_id = 0;
  resource_base = 0;
  resource_size = 0;
  owner_domain = 0;
  ref_count = 0;
  flags = 0;
}

pub record Domain : Type 0 where
  pub domain_id : ℕ
  pub memory_base : ℕ
  pub memory_size : ℕ
  pub cap_space : ℕ → ℕ
  pub num_caps : ℕ
  pub state : ℕ

abbrev pub domain_state_stopped : ℕ
domain_state_stopped = 0

abbrev pub zero_domain : Domain
zero_domain = record {
  domain_id = 0;
  memory_base = 0;
  memory_size = 0;
  cap_space = λ _. 0;
  num_caps = 0;
  state = 0;
}

pub record CapSystem : Type 0 where
  pub capabilities : ℕ → Capability
  pub domains : ℕ → Domain
  pub next_cap_handle : ℕ
  pub next_domain_id : ℕ
  pub num_caps : ℕ
  pub num_domains : ℕ
  pub lock : ℕ

-- Test-and-set: the first caller gets the lock, any further call spins for ever.
unfoldable pub spin_lock : Cmd CapSystem (Unit {0})
spin_lock s = if s.lock == 0 then modify (λ t. record t { lock = 1 }) s else hang

unfoldable pub spin_unlock : Cmd CapSystem (Unit {0})
spin_unlock = modify λ s. record s { lock = 0 }

abbrev pub set_capability : ℕ → Capability → CapSystem → CapSystem
set_capability i c s = record s { capabilities = update s.capabilities i c }

abbrev pub set_domain : ℕ → Domain → CapSystem → CapSystem
set_domain i d s = record s { domains = update s.domains i d }

unfoldable pub cap_init : Cmd CapSystem ℤ
cap_init s = pure success (record {
  capabilities = λ _. zero_capability;
  domains = λ _. zero_domain;
  next_cap_handle = 1;
  next_domain_id = 1;
  num_caps = 0;
  num_domains = 0;
  lock = 0;
})

unfoldable pub cap_get_domain : CapSystem → ℕ → Option ℕ
cap_get_domain s domain_id = first max_domains (λ i. (s.domains i).domain_id == domain_id)

abbrev pub is_live : CapSystem → ℕ → Bool
is_live s i = (s.capabilities i).magic == cap_magic

unfoldable pub cap_get_capability : CapSystem → ℕ → Option ℕ
cap_get_capability s handle =
    if handle == 0 || leb s.next_cap_handle handle
    then none
    else first max_capabilities (λ i. is_live s i && (i == (handle - 1) % max_capabilities))

-- `domain->cap_space[domain->num_caps++] = handle`
abbrev pub append_cap : ℕ → Domain → Domain
append_cap handle d = record d {
  cap_space = update d.cap_space d.num_caps handle;
  num_caps = u32 (d.num_caps + 1);
}

unfoldable pub cap_domain_add_cap : ℕ → ℕ → CapSystem → ℤ × CapSystem
cap_domain_add_cap domain_id handle s = elim (cap_get_domain s domain_id) [
  | none ↦ (minus_one, s)
  | some i ↦
      let d = s.domains i in
      if leb domain_cap_space_size d.num_caps
      then (minus_two, s)
      else (success, set_domain i (append_cap handle d) s)
]

-- `for (; rounds > 0; j++) cap_space[j] = cap_space[j + 1];`
unfoldable pub shift_down : ℕ → ℕ → (ℕ → ℕ) → ℕ → ℕ
shift_down zero j f = f
shift_down (suc k) j f = shift_down k (suc j) (update f j (f (suc j)))

-- Closes the gap at `i`, and clears the last handle.
unfoldable pub drop_cap : ℕ → Domain → Domain
unfolding shift_down
drop_cap i d =
    let last = dec32 d.num_caps in
    record d { cap_space = update (shift_down (last - i) i d.cap_space) last 0; num_caps = last }

-- The index of the first copy of the handle among the domain's capabilities.
unfoldable pub find_cap : ℕ → Domain → Option ℕ
find_cap handle d = first d.num_caps (λ i. d.cap_space i == handle)

unfoldable pub cap_domain_remove_cap : ℕ → ℕ → CapSystem → ℤ × CapSystem
unfolding find_cap
cap_domain_remove_cap domain_id handle s = elim (cap_get_domain s domain_id) [
  | none ↦ (minus_one, s)
  | some i ↦ elim (find_cap handle (s.domains i)) [
    | none ↦ (minus_two, s)
    | some j ↦ (success, set_domain i (drop_cap j (s.domains i)) s)
  ]
]

-- The entry that `cap_create` writes into the free slot.
abbrev pub new_capability : ℕ → ℕ → ℕ → ℕ → ℕ → ℕ → Capability
new_capability type permissions resource_id base size domain_id = record {
  magic = cap_magic;
  type = type;
  permissions = permissions;
  resource_id = resource_id;
  resource_base = base;
  resource_size = size;
  owner_domain = domain_id;
  ref_count = 1;
  flags = 0;
}

unfoldable pub free_slot : CapSystem → Option ℕ
free_slot s = first max_capabilities (λ i. not (is_live s i))

-- `if (domain) cap_domain_add_cap(domain_id, handle)`
abbrev pub add_to_owner : ℕ → ℕ → CapSystem → CapSystem
add_to_owner domain_id handle s = elim (cap_get_domain s domain_id) [
  | none ↦ s
  | some _ ↦ (cap_domain_add_cap domain_id handle s).1
]

unfoldable pub cap_create : ℕ → ℕ → ℕ → ℕ → ℕ → ℕ → Cmd CapSystem ℕ
unfolding spin_lock spin_unlock
cap_create type permissions resource_id base size domain_id = do
  spin_lock
  slot ← gets free_slot
  elim slot [
    | none ↦ (do spin_unlock; pure 0)
    | some i ↦ (do
      modify (set_capability i (new_capability type permissions resource_id base size domain_id))
      handle ← gets (λ s. s.next_cap_handle)
      modify (λ s. record s { next_cap_handle = u32 (s.next_cap_handle + 1) })
      modify (add_to_owner domain_id handle)
      modify (λ s. record s { num_caps = u32 (s.num_caps + 1) })
      spin_unlock
      pure handle)
  ]

-- `for (i = ...; i < MAX_DOMAINS; i++) cap_domain_remove_cap(domains[i].domain_id, handle);`
unfoldable pub remove_from_domains : ℕ → ℕ → ℕ → CapSystem → CapSystem
remove_from_domains zero i handle s = s
remove_from_domains (suc k) i handle s =
    remove_from_domains k (suc i) handle (cap_domain_remove_cap (s.domains i).domain_id handle s).1

unfoldable pub cap_delete : ℕ → Cmd CapSystem ℤ
unfolding spin_lock spin_unlock
cap_delete handle = do
  spin_lock
  cap ← gets (λ s. cap_get_capability s handle)
  elim cap [
    | none ↦ (do spin_unlock; pure minus_one)
    | some i ↦ (do
      modify (remove_from_domains max_domains 0 handle)
      modify (set_capability i zero_capability)
      modify (λ s. record s { num_caps = dec32 s.num_caps })
      spin_unlock
      pure success)
  ]

-- `cap->ref_count = f(cap->ref_count)`
abbrev pub adjust_refs : (ℕ → ℕ) → ℕ → CapSystem → CapSystem
adjust_refs f i s =
    let c = s.capabilities i in set_capability i (record c { ref_count = f c.ref_count }) s

abbrev pub has_perms : Capability → ℕ → Bool
has_perms c permission = bit_and c.permissions permission == permission

unfoldable pub cap_grant : ℕ → ℕ → Cmd CapSystem ℕ
unfolding spin_lock spin_unlock
cap_grant handle target_domain_id = do
  spin_lock
  cap ← gets (λ s. cap_get_capability s handle)
  elim cap [
    | none ↦ (do spin_unlock; pure 0)
    | some i ↦ (do
      c ← gets (λ s. s.capabilities i)
      if bit_and c.permissions cap_perm_grant == 0 then (do spin_unlock; pure 0) else (do
        result ← call (cap_domain_add_cap target_domain_id handle)
        modify (λ s. if is_success result then adjust_refs (λ n. u32 (n + 1)) i s else s)
        spin_unlock
        pure handle))
  ]

unfoldable pub cap_revoke : ℕ → ℕ → Cmd CapSystem ℤ
unfolding spin_lock spin_unlock
cap_revoke handle domain_id = do
  spin_lock
  cap ← gets (λ s. cap_get_capability s handle)
  elim cap [
    | none ↦ (do spin_unlock; pure minus_one)
    | some i ↦ (do
      result ← call (cap_domain_remove_cap domain_id handle)
      modify (λ s. if is_success result then adjust_refs dec32 i s else s)
      spin_unlock
      pure result)
  ]

-- The search of the whole capability space, used or not.
unfoldable pub holds : ℕ → Domain → Option ℕ
holds handle d = first domain_cap_space_size (λ i. d.cap_space i == handle)

-- `!cap || (cap->permissions & permission) != permission`, negated
abbrev pub permits : CapSystem → ℕ → ℕ → Bool
permits s handle permission = elim (cap_get_capability s handle) [
  | none ↦ Bool.false
  | some i ↦ has_perms (s.capabilities i) permission
]

unfoldable pub cap_check : ℕ → ℕ → ℕ → Cmd CapSystem ℤ
unfolding spin_lock spin_unlock
cap_check domain_id handle permission = do
  spin_lock
  domain ← gets (λ s. cap_get_domain s domain_id)
  elim domain [
    | none ↦ (do spin_unlock; pure minus_one)
    | some i ↦ (do
      has_cap ← gets (λ s. holds handle (s.domains i))
      elim has_cap [
        | none ↦ (do spin_unlock; pure minus_two)
        | some _ ↦ (do
          permitted ← gets (λ s. permits s handle permission)
          if permitted then (do spin_unlock; pure success) else (do spin_unlock; pure minus_three))
      ])
  ]

-- The entry that `cap_create_domain` writes into the free slot.
abbrev pub new_domain : ℕ → ℕ → ℕ → Domain
new_domain domain_id memory_base memory_size = record {
  domain_id = domain_id;
  memory_base = memory_base;
  memory_size = memory_size;
  cap_space = λ _. 0;
  num_caps = 0;
  state = domain_state_stopped;
}

unfoldable pub free_domain : CapSystem → Option ℕ
free_domain s = first max_domains (λ i. (s.domains i).domain_id == 0)

unfoldable pub cap_create_domain : ℕ → ℕ → Cmd CapSystem ℕ
unfolding spin_lock spin_unlock
cap_create_domain memory_base memory_size = do
  spin_lock
  slot ← gets free_domain
  elim slot [
    | none ↦ (do spin_unlock; pure 0)
    | some i ↦ (do
      domain_id ← gets (λ s. s.next_domain_id)
      modify (λ s. record s { next_domain_id = u32 (s.next_domain_id + 1) })
      modify (set_domain i (new_domain domain_id memory_base memory_size))
      modify (λ s. record s { num_domains = u32 (s.num_domains + 1) })
      spin_unlock
      gets (λ s. (s.domains i).domain_id))
  ]

-- The loop of `cap_delete_domain`; `cap_revoke` takes the lock again.
unfoldable pub revoke_all : ℕ → ℕ → ℕ → ℕ → Cmd CapSystem (Unit {0})
revoke_all zero j i domain_id s = pure tt s
revoke_all (suc k) j i domain_id s = elim ((s.domains i).cap_space j == 0) [
  | Bool.true ↦ revoke_all k (suc j) i domain_id s
  | Bool.false ↦
      (cap_revoke ((s.domains i).cap_space j) domain_id >> revoke_all k (suc j) i domain_id) s
]

unfoldable pub cap_delete_domain : ℕ → Cmd CapSystem ℤ
unfolding spin_lock spin_unlock
cap_delete_domain domain_id = do
  spin_lock
  domain ← gets (λ s. cap_get_domain s domain_id)
  elim domain [
    | none ↦ (do spin_unlock; pure minus_one)
    | some i ↦ (do
      revoke_all domain_cap_space_size 0 i domain_id
      modify (set_domain i zero_domain)
      modify (λ s. record s { num_domains = dec32 s.num_domains })
      spin_unlock
      pure success)
  ]

unfoldable pub cap_derive : ℕ → ℕ → Cmd CapSystem ℕ
unfolding spin_lock spin_unlock
cap_derive handle new_permissions = do
  spin_lock
  orig ← gets (λ s. cap_get_capability s handle)
  elim orig [
    | none ↦ (do spin_unlock; pure 0)
    | some i ↦ (do
      c ← gets (λ s. s.capabilities i)
      new_handle ←
          cap_create c.type (bit_and c.permissions new_permissions) c.resource_id c.resource_base
            c.resource_size c.owner_domain
      spin_unlock
      pure new_handle)
  ]
