-- ===== src/Prelude/Commands.antt =====
-- Commands over a component's global state. A command returns, spins for ever on a lock that is
-- already held (`hang`), or does what C leaves undefined or the processor traps (`fault`).
use mathlib.Core.Path.{◌≡◌, refl}

pub data Run (S A : Type 0) : Type 0 where
  ok : A → S → Run S A
  hang : Run S A
  fault : Run S A

abbrev pub Cmd : Type 0 → Type 0 → Type 0
Cmd S A = S → Run S A

module _ {S : Type 0} where
  abbrev pub and_then : {A B : Type 0} → Run S A → (A → Cmd S B) → Run S B
  and_then (ok a s) k = k a s
  and_then hang k = hang
  and_then fault k = fault

  infixl 5 ◌>>=◌ ◌>>◌
  abbrev pub ◌>>=◌ : {A B : Type 0} → Cmd S A → (A → Cmd S B) → Cmd S B
  ◌>>=◌ m k s = and_then (m s) k

  abbrev pub ◌>>◌ : {A B : Type 0} → Cmd S A → Cmd S B → Cmd S B
  ◌>>◌ m n s = and_then (m s) (λ _. n)

  abbrev pub pure : {A : Type 0} → A → Cmd S A
  pure = ok

  -- Reads a value off the state.
  abbrev pub gets : {A : Type 0} → (S → A) → Cmd S A
  gets f s = ok (f s) s

  abbrev pub modify : (S → S) → Cmd S (Unit {0})
  modify f s = ok tt (f s)

  -- A function of the component that takes no lock: a result and the new state.
  abbrev pub call : {A : Type 0} → (S → A × S) → Cmd S A
  call f s = ok (f s).0 (f s).1

  -- The command returns, with a result and a state that satisfy `P`.
  abbrev pub Returns : {A : Type 0} → (A → S → Type 0) → Run S A → Type 0
  Returns P (ok a s) = P a s
  Returns P hang = ⊥
  Returns P fault = ⊥

-- A command of a component, run on the part of a larger state that the component keeps.
abbrev pub within : {S T A : Type 0} → (T → S) → (S → T → T) → Cmd S A → Cmd T A
within get put m t = elim (m (get t)) [ ok a s ↦ ok a (put s t) | hang ↦ hang | fault ↦ fault ]

module _ {S A : Type 0} {P Q : A → S → Type 0} where
  pub Returns-mono : (m : Run S A) → Returns P m → ((a : A) (s : S) → P a s → Q a s) → Returns Q m
  Returns-mono (ok a s) h f = f a s h
  Returns-mono hang h f = h
  Returns-mono fault h f = h

-- One command after the other.
pub Returns-and_then :
    {S A B : Type 0} (P : A → S → Type 0) (Q : B → S → Type 0) (m : Run S A) (k : A → Cmd S B)
    → Returns P m
    → ((a : A) (s : S) → P a s → Returns Q (k a s))
    → Returns Q (and_then m k)
Returns-and_then P Q (ok a s) k h f = f a s h
Returns-and_then P Q hang k h f = h
Returns-and_then P Q fault k h f = h

-- The result and the state of a command that returns.
pub Returns-ok :
    {S A : Type 0} (P : A → S → Type 0) (m : Run S A)
    → Returns P m
    → (a : A) × (s : S) × (m ≡ ok a s) × P a s
Returns-ok P (ok a s) h = (a, s, refl, h)
Returns-ok P hang h = absurd h
Returns-ok P fault h = absurd h
