-- ===== src/Core0/Paging/Gates.antt =====
-- The call gates of Core-0/isolation/isolation.c.
use hik.Core0.Capability.Lookup.{cap_check_iff, Allowed}
use hik.Prelude.{
  zero, suc, negsuc, suc, update_else, ◌∙◌, ap, update_here, refl, inr, inl, ◌↔◌, ◌==◌, ◌⊎◌,
  success, Bool-cases, u32, Returns, ℕ, ◌+◌, ◌*◌, ◌/◌, ◌%◌, ◌^◌, ◌≤◌, ◌<◌, bit_and, ◌≡◌, true,
  false, arith, leb, if◌then◌else◌, ok, ℤ, pos, minus_one, is_success,
}
use hik.Core1.Ring.Index.{bit_and_mask}
use hik.Core0.Capability.{cap_check, cap_type_service, cap_perm_execute, max_domains}
use hik.Core0.Paging.{
  isolation_call_gate, Paging, CallGate, CallGateTable, max_call_gates, new_gate, append_gate,
  isolation_create_call_gate,
}

-- At most 16 gates, all of them present, and the lock free.
pub record IsGateTable (t : CallGateTable) : Type 0 where
  pub bound : t.num_gates ≤ max_call_gates
  pub present : (i : ℕ) → i < t.num_gates → (t.gates i).present ≡ 1
  pub unlocked : t.lock ≡ 0

-- The entry point that a gate's two offsets are parts of.
abbrev pub entry_of : CallGate → ℕ
entry_of g = g.offset_low + g.offset_high * 2 ^ 16

new_gate-entry :
    (entry_point : ℕ) → entry_point < 2 ^ 64 → entry_of (new_gate entry_point) ≡ entry_point
new_gate-entry e word =
    let l : bit_and e 0xFFFF ≡ e % 2 ^ 16 = bit_and_mask e 16 in
    let h : bit_and (e / 2 ^ 16) 0xFFFFFFFFFFFF ≡ e / 2 ^ 16 % 2 ^ 48 =
      bit_and_mask (e / 2 ^ 16) 48 in
    omega (arith, l, h)

create-far :
    (s : Paging) (target entry_point cap_id : ℕ)
    → leb max_domains target ≡ true
    → isolation_create_call_gate target entry_point cap_id s ≡ ok minus_one s
unfolding isolation_create_call_gate
create-far s target entry_point cap_id far = rw far refl

module _ (s : Paging) (target entry_point cap_id : ℕ) (known : leb max_domains target ≡ false) where
  create-refused :
      (r : ℤ)
      → cap_check cap_id cap_type_service cap_perm_execute s.caps ≡ ok r s.caps
      → is_success r ≡ false
      → isolation_create_call_gate target entry_point cap_id s ≡ ok minus_one s
  unfolding isolation_create_call_gate
  create-refused r e f = ground (arith, known, e, f)

  create-allowed :
      (r : ℤ)
      → cap_check cap_id cap_type_service cap_perm_execute s.caps ≡ ok r s.caps
      → is_success r ≡ true
      → s.call_gates.lock ≡ 0
      → isolation_create_call_gate target entry_point cap_id s ≡ (
          if leb max_call_gates s.call_gates.num_gates
          then ok minus_one s
          else ok
              (pos s.call_gates.num_gates)
              (record s { call_gates = append_gate (new_gate entry_point) s.call_gates }))
  unfolding isolation_create_call_gate
  create-allowed r e f free = ground (arith, known, e, f, free)

call_gate_iff :
    (s : Paging) (i : ℕ)
    → IsGateTable s.call_gates
    → (isolation_call_gate i s ≡ success) ↔ (i < s.call_gates.num_gates)
unfolding isolation_call_gate
call_gate_iff s i v = elim (Bool-cases (leb s.call_gates.num_gates i)) [
  | inl y ↦ rw y (λ h. absurd (ground (arith, h)), λ h. absurd (ground (arith, y, h)))
  | inr n ↦ (λ h. ground (arith, n), λ h. ground (arith, n, v.present i (ground (arith, n))))
]

below : (i n : ℕ) → i < n + 1 → (n == i) ≡ false → i < n
below i n l m = ground arith

append-IsGateTable :
    (t : CallGateTable) (entry_point : ℕ)
    → IsGateTable t
    → leb max_call_gates t.num_gates ≡ false
    → IsGateTable (append_gate (new_gate entry_point) t)
append-IsGateTable t e v n =
    let c : u32 (t.num_gates + 1) ≡ t.num_gates + 1 = ground (arith, v.bound) in
    record {
      bound = rw c (ground (arith, n));
      present = λ i l. elim (Bool-cases (t.num_gates == i)) [
        | inl y ↦ rw y refl
        | inr m ↦ rw m (v.present i (below i t.num_gates (ground (arith, c)) m))
      ];
      unlocked = v.unlocked;
    }

-- A gate that has been made: its number is the answer, its table stays in order, its offsets put
-- together are the entry point, the gates before it have not changed, and a call through it succeeds.
pub record Made (s t : Paging) (entry_point : ℕ) (r : ℤ) : Type 0 where
  pub answer_is : r ≡ pos s.call_gates.num_gates
  pub room : s.call_gates.num_gates < max_call_gates
  pub in_order : IsGateTable t.call_gates
  pub one_more : t.call_gates.num_gates ≡ s.call_gates.num_gates + 1
  pub leads : entry_of (t.call_gates.gates s.call_gates.num_gates) ≡ entry_point
  pub others : (i : ℕ) → i < s.call_gates.num_gates → t.call_gates.gates i ≡ s.call_gates.gates i
  pub callable : isolation_call_gate s.call_gates.num_gates t ≡ success

passed-success : (r : ℤ) → is_success r ≡ true → r ≡ success
passed-success (pos zero) e = refl
passed-success (pos (suc n)) e = absurd (ground (arith, e))
passed-success (negsuc n) e = absurd (ground (arith, e))

-- What it takes to make a gate.
abbrev pub MayMake : Paging → (target cap_id : ℕ) → Type 0
MayMake s target cap_id =
    (target < max_domains)
    × Allowed s.caps cap_id cap_type_service cap_perm_execute
    × (s.call_gates.num_gates < max_call_gates)

new_gate-Made :
    (s : Paging) (entry_point : ℕ)
    → IsGateTable s.call_gates
    → entry_point < 2 ^ 64
    → s.call_gates.num_gates < max_call_gates
    → Made s
        (record s { call_gates = append_gate (new_gate entry_point) s.call_gates })
        entry_point
        (pos s.call_gates.num_gates)
new_gate-Made s e v word l =
    let n = s.call_gates.num_gates in
    let t = record s { call_gates = append_gate (new_gate e) s.call_gates } in
    let order = append-IsGateTable s.call_gates e v (ground arith) in
    let c : u32 (n + 1) ≡ n + 1 = omega arith in
    let here = update_here s.call_gates.gates n (new_gate e) in
    record {
      answer_is = refl;
      room = l;
      in_order = order;
      one_more = c;
      leads = ap entry_of here ∙ new_gate-entry e word;
      others = λ i m. update_else s.call_gates.gates n (new_gate e) i (λ q. absurd (omega arith));
      callable = (call_gate_iff t n order).1 (omega (arith, c));
    }

-- `isolation_create_call_gate` for a 64-bit entry point, on a table of gates in order and with the
-- capability system's lock free, returns. Where the domain is in range, its check of the capability
-- passes and a gate is free, the gate is made; else it answers -1 and changes nothing.
pub create_call_gate_lem :
    (s : Paging) (target entry_point cap_id : ℕ)
    → IsGateTable s.call_gates
    → s.caps.lock ≡ 0
    → entry_point < 2 ^ 64
    → Returns
        (λ r t.
          (MayMake s target cap_id × Made s t entry_point r)
          ⊎ ((MayMake s target cap_id → ⊥) × (r ≡ minus_one) × (t ≡ s)))
        (isolation_create_call_gate target entry_point cap_id s)
create_call_gate_lem s target entry_point cap_id v free word =
    let (r, e, allowed) = cap_check_iff s.caps cap_id cap_type_service cap_perm_execute free in
    elim (Bool-cases (leb max_domains target)) [
      | inl far ↦
          rw (create-far s target entry_point cap_id far)
            (inr (λ h. absurd (ground (arith, h.0, far)), refl, refl))
      | inr near ↦ elim (Bool-cases (is_success r)) [
        | inr failed ↦
            rw (create-refused s target entry_point cap_id near r e failed) (
              inr (λ h. absurd (ground (arith, ap is_success (allowed.1 h.1), failed)), refl, refl))
        | inl passed ↦ elim (Bool-cases (leb max_call_gates s.call_gates.num_gates)) [
          | inl full ↦
              rw (create-allowed s target entry_point cap_id near r e passed v.unlocked, full)
                (inr (λ h. absurd (ground (arith, h.2, full)), refl, refl))
          | inr room ↦
              rw (create-allowed s target entry_point cap_id near r e passed v.unlocked, room)
                (inl (
                  (ground (arith, near), allowed.0 (passed-success r passed), ground (arith, room)),
                  new_gate-Made s entry_point v word (ground (arith, room)),
                ))
        ]
      ]
    ]
