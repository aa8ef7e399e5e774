-- ===== src/Base/Lists.antt =====
-- Lists measured, tested and counted with native numbers and Boolean tests.
use Prim.Native.Nat.{ℕ, suc, ◌+◌, ◌≤◌}
use mathlib.Core.Path.{◌≡◌, refl}
use mathlib.Core.Bool.{Bool, true, false, not, ◌&&◌, ◌||◌}
use mathlib.Core.Option.{Option, none, some}
use mathlib.Core.List.{List, [], ◌∷◌}
use native.Mathlib.Omega.{arith}
use ts_gaurd_service.Base.Tests.{if◌then◌else◌}

abbrev pub bit : Bool → ℕ
bit true = 1
bit false = 0

module _ {ℓ} {A : Type ℓ} where
  abbrev pub length : List A → ℕ
  length [] = 0
  length (x ∷ xs) = suc (length xs)

  abbrev pub any : (A → Bool) → List A → Bool
  any p [] = false
  any p (x ∷ xs) = p x || any p xs

  abbrev pub first : List A → Option A
  first [] = none
  first (x ∷ xs) = some x

  -- How many entries pass the test.
  abbrev pub count : (A → Bool) → List A → ℕ
  count p [] = 0
  count p (x ∷ xs) = bit (p x) + count p xs

  abbrev pub select : (A → Bool) → List A → List A
  select p [] = []
  select p (x ∷ xs) = if p x then x ∷ select p xs else select p xs

module _ {ℓ} {A : Type ℓ} where
  pub count-select :
      (q p : A → Bool) (xs : List A) → count q (select p xs) ≡ count (λ x. q x && p x) xs
  count-select q p [] = refl
  count-select q p (x ∷ xs) = ground (arith, count-select q p xs)

  pub count_congr :
      (p q : A → Bool) → ((x : A) → p x ≡ q x) → (xs : List A) → count p xs ≡ count q xs
  count_congr p q h [] = refl
  count_congr p q h (x ∷ xs) = ground (arith, h x, count_congr p q h xs)

  pub count_mono :
      (p q : A → Bool)
      → ((x : A) → p x ≡ true → q x ≡ true)
      → (xs : List A) → count p xs ≤ count q xs
  count_mono p q h [] = omega arith
  count_mono p q h (x ∷ xs) = ground (arith, h x, count_mono p q h xs)

  pub count_and_le : (p q : A → Bool) (xs : List A) → count (λ x. p x && q x) xs ≤ count p xs
  count_and_le p q [] = omega arith
  count_and_le p q (x ∷ xs) = ground (arith, count_and_le p q xs)

  -- An update of the entries that pass `d`, all of which pass `a`, makes as many entries pass `v`
  -- as passed `w`, at most.
  pub count-update_le :
      (d a v w : A → Bool) (f : A → A)
      → ((x : A) → d x ≡ true → a x ≡ true → v (f x) ≡ true → w x ≡ true)
      → ((x : A) → v x ≡ true → w x ≡ true)
      → (xs : List A) → count (λ x. d x && a x) xs ≡ count d xs
      → count (λ x. v (if d x then f x else x)) xs ≤ count w xs
  count-update_le d a v w f h k [] e = omega arith
  count-update_le d a v w f h k (x ∷ xs) e =
      ground (arith, h x, k x, count_and_le d a xs, count-update_le d a v w f h k xs)

  -- And it makes at least those entries pass.
  pub le-count-update :
      (d a v : A → Bool) (f : A → A)
      → ((x : A) → d x ≡ true → a x ≡ true → v (f x) ≡ true)
      → (xs : List A) → count (λ x. d x && a x) xs ≤ count (λ x. v (if d x then f x else x)) xs
  le-count-update d a v f h [] = omega arith
  le-count-update d a v f h (x ∷ xs) = ground (arith, h x, le-count-update d a v f h xs)

  -- Where nothing passes `b`, to fail `b` is no condition.
  pub count-and_not :
      (p a b : A → Bool) (xs : List A)
      → count b xs ≡ 0
      → count (λ x. p x && (a x && not (b x))) xs ≡ count (λ x. p x && a x) xs
  count-and_not p a b [] z = refl
  count-and_not p a b (x ∷ xs) z = ground (arith, count-and_not p a b xs)

  pub count-not_and : (p : A → Bool) (xs : List A) → count (λ x. not (p x) && p x) xs ≡ 0
  count-not_and p [] = refl
  count-not_and p (x ∷ xs) = ground (arith, count-not_and p xs)

  -- Where all entries that pass `d` pass `a`, an update of the one is an update of both.
  pub count-update_only :
      (d a q : A → Bool) (f : A → A) (xs : List A)
      → count (λ x. d x && a x) xs ≡ count d xs
      → count (λ x. q (if d x then f x else x)) xs
        ≡ count (λ x. q (if d x && a x then f x else x)) xs
  count-update_only d a q f [] e = refl
  count-update_only d a q f (x ∷ xs) e =
      ground (arith, count_and_le d a xs, count-update_only d a q f xs)

  -- Where the entries that pass `d` all pass `a`, and so fail `v` until they are updated, they all
  -- come to pass `v`.
  pub count-update_gain :
      (d a v : A → Bool) (f : A → A)
      → ((x : A) → d x ≡ true → a x ≡ true → (v x ≡ false) × (v (f x) ≡ true))
      → (xs : List A) → count (λ x. d x && a x) xs ≡ count d xs
      → count (λ x. v (if d x then f x else x)) xs ≡ count v xs + count d xs
  count-update_gain d a v f h [] e = omega arith
  count-update_gain d a v f h (x ∷ xs) e =
      ground (arith, h x, count_and_le d a xs, count-update_gain d a v f h xs)
