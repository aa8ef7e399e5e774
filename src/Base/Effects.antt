-- ===== src/Base/Effects.antt =====
-- Actions: they read and change a state, and may raise. What was written before a raise stays.

use mathlib.Core.Bool.{Bool, true, false}
use mathlib.Core.Option.{Option, none, some}
use mathlib.Core.Path.{◌≡◌, refl}
use mathlib.Core.List.{List, [], ◌∷◌}
use ts_gaurd_service.Base.Tests.{if◌then◌else◌}

pub data Error : Type 0 where
  not_found impossible_behavior duplicate_transaction duplicate_order : Error
  null_reference query_failed chain_failed division_by_zero not_enough_assets : Error
  peers_not_initiated commitment_mis_match signing_failed : Error

pub data Result (A : Type 0) : Type 0 where
  ok : A → Result A
  err : Error → Result A

abbrev pub Action : Type 0 → Type 0 → Type 0
Action S A = S → Result A × S

abbrev pub or_error : {A : Type 0} → Option A → Error → Result A
or_error none e = err e
or_error (some a) e = ok a

module _ {S A : Type 0} where
  abbrev pub pure : A → Action S A
  pure a s = (ok a, s)

  abbrev pub raise : Error → Action S A
  raise e s = (err e, s)

  abbrev pub gets : (S → A) → Action S A
  gets f s = (ok (f s), s)

  abbrev pub lift : Result A → Action S A
  lift r s = (r, s)

  abbrev pub or_raise : Option A → Error → Action S A
  or_raise o e = lift (or_error o e)

abbrev pub and_then : {S A B : Type 0} → Result A × S → (A → Action S B) → Result B × S
and_then (ok a, s) f = f a s
and_then (err e, s) f = (err e, s)

infixl 5 ◌>>=◌ ◌>>◌
abbrev pub ◌>>=◌ : {S A B : Type 0} → Action S A → (A → Action S B) → Action S B
◌>>=◌ m f s = and_then (m s) f

abbrev pub ◌>>◌ : {S A B : Type 0} → Action S A → Action S B → Action S B
m >> k = m >>= λ _. k

-- `try { m } catch (e) { log }`
abbrev pub attempt : {S : Type 0} → Action S (Unit {0}) → Action S (Unit {0})
attempt m s = (ok tt, (m s).1)

-- `for (const x of xs) body(x)`
unfoldable pub for_each : {S A : Type 0} → List A → (A → Action S (Unit {0})) → Action S (Unit {0})
for_each [] body = pure tt
for_each (x ∷ xs) body = body x >> for_each xs body

-- What holds after each outcome of the first step holds after both steps; so for a branch.
module _ {S : Type 0} (P : S → Type 0) where
  pub bind_cases :
      {A B : Type 0} (m : Action S A) (f : A → Action S B) (s : S)
      → P (m s).1
      → ((a : A) → P (f a (m s).1).1)
      → P (and_then (m s) f).1
  bind_cases {A} {B} m f s h k = go (m s) h k
    where
      go : (r : Result A × S) → P r.1 → ((a : A) → P (f a r.1).1) → P (and_then r f).1
      go (ok a, t) h k = k a
      go (err e, t) h k = h

  pub if_cases :
      {A : Type 0} (b : Bool) (m k : Action S A) (s : S)
      → P (m s).1
      → P (k s).1
      → P ((if b then m else k) s).1
  if_cases true m k s h h' = h
  if_cases false m k s h h' = h'

-- Inversion of two steps that returned.
pub bind_ok :
    {S A B : Type 0} (m : Action S A) (f : A → Action S B) (s : S) {b : B} {t : S}
    → and_then (m s) f ≡ (ok b, t)
    → (a : A) × ((m s).0 ≡ ok a) × (f a (m s).1 ≡ (ok b, t))
bind_ok {S} {A} {B} m f s {b} {t} e = go (m s) e
  where
    go :
        (r : Result A × S)
        → and_then r f ≡ (ok b, t)
        → (a : A) × (r.0 ≡ ok a) × (f a r.1 ≡ (ok b, t))
    go (ok a, u) e = (a, refl, e)
    go (err x, u) e = cc
