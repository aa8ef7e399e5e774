-- ===== src/Base/Results.antt =====
-- Sequences of computations that may raise and change no state.
use mathlib.Core.List.{List, [], ◌∷◌}
use mathlib.Core.Path.{◌≡◌, refl, ap}
use ts_gaurd_service.Base.Effects.{Result, ok, err}

abbrev pub continue_with : {A B : Type 0} → Result A → (A → Result B) → Result B
continue_with (ok a) f = f a
continue_with (err e) f = err e

infixl 5 ◌>>=◌ ◌>>◌
abbrev pub ◌>>=◌ : {A B : Type 0} → Result A → (A → Result B) → Result B
r >>= f = continue_with r f

abbrev pub ◌>>◌ : {A B : Type 0} → Result A → Result B → Result B
r >> k = continue_with r λ _. k

-- `xs.map(f)`, where `f` may raise.
unfoldable pub map_result : {A B : Type 0} → (A → Result B) → List A → Result (List B)
map_result f [] = ok []
map_result f (x ∷ xs) = continue_with (f x) λ y. continue_with (map_result f xs) λ ys. ok (y ∷ ys)

-- Inversion of two steps that returned.
pub result_bind_ok :
    {A B : Type 0} (r : Result A) (f : A → Result B) {b : B}
    → continue_with r f ≡ ok b
    → (a : A) × (r ≡ ok a) × (f a ≡ ok b)
result_bind_ok (ok a) f e = (a, refl, e)
result_bind_ok (err x) f e = cc

pub ok-injective : {A : Type 0} {a b : A} → ok a ≡ ok b → a ≡ b
ok-injective {A} {a} e = ap (λ (r : Result A). elim r [ ok x ↦ x | err _ ↦ a ]) e
