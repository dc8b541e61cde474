-- ===== src/Prelude/Stateful.antt =====
-- Code that changes a state and can fault: an action takes the state and gives it back with a result.
use mathlib.Core.Bool.{Bool}
use mathlib.Core.Option.{Option, none, some}
use peos.Prelude.Fault

abbrev pub Action : Type 0 → Type 0 → Type 0
Action S A = S → Option (A × S)

infixl 5 ◌>>=◌ ◌>>◌
abbrev pub ◌>>=◌ : {S A B : Type 0} → Action S A → (A → Action S B) → Action S B
◌>>=◌ m f s = Fault.◌>>=◌ (m s) (λ (a, s'). f a s')

abbrev pub ◌>>◌ : {S B : Type 0} → Action S (Unit {0}) → Action S B → Action S B
m >> k = m >>= λ _. k

abbrev pub pure : {S A : Type 0} → A → Action S A
pure a s = some (a, s)

-- What needs no state.
abbrev pub lift : {S A : Type 0} → Option A → Action S A
lift o s = Fault.◌>>=◌ o (λ a. some (a, s))

abbrev pub assert : {S : Type 0} → Bool → Action S (Unit {0})
assert b = lift (Fault.assert b)

abbrev pub fault : {S A : Type 0} → Action S A
fault s = none

abbrev pub get : {S : Type 0} → Action S S
get s = some (s, s)

abbrev pub modify : {S : Type 0} → (S → S) → Action S (Unit {0})
modify f s = some (tt, f s)
