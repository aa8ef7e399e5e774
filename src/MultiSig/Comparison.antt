-- ===== src/MultiSig/Comparison.antt =====
-- What the comparison of commitments in src/guard/multisig/MultiSigUtils.ts tells apart.
use ts_gaurd_service.Base.{
  ℕ, zero, suc, ◌+◌, ◌<◌, ◌≤◌, ◌≡◌, refl, ap, Bool, true, false, Option, none, some, List, [], ◌∷◌,
  String, ◌==◌, nat_eq, string_eq, any, arith, eq_refl, eq_iff, length, ◌||◌,
}
use ts_gaurd_service.MultiSig.Commitments.{
  SingleCommitment, PublishedCommitment, at_input, is_nil, insert_sorted, upto, sort, agree_all,
  compare_single_input_commitments_are_equals, inputs_differ,
}

agree_all_refl :
    (after : String → String → Bool) (xs : List SingleCommitment) → agree_all after xs xs ≡ true
agree_all_refl after [] = refl
agree_all_refl after (x ∷ xs) = ground (arith, agree_all_refl after xs, eq_refl x.a)

module _ (after : String → String → Bool) where
  same_input : (o : Option (List SingleCommitment)) → inputs_differ after o o ≡ false
  unfolding compare_single_input_commitments_are_equals
  same_input none = refl
  same_input (some items) = ground (arith, agree_all_refl after (sort after items))

  pub differ-same :
      (c c' : PublishedCommitment) (start n : ℕ)
      → ((i : ℕ) → start ≤ i → i < start + n → at_input i c ≡ at_input i c')
      → any (λ i. inputs_differ after (at_input i c) (at_input i c')) (upto start n) ≡ false
  differ-same c c' start zero h = refl
  differ-same c c' start (suc n) h =
      rw (h start (omega arith) (omega arith), same_input (at_input start c'))
        (differ-same c c' (suc start) n λ i p q. h i (omega arith) (omega arith))

-- Some item has the text.
abbrev pub has : String → List SingleCommitment → Bool
has a = any λ (item : SingleCommitment). item.a == a

agree_all-has :
    (after : String → String → Bool) (a : String) (xs ys : List SingleCommitment)
    → length xs ≡ length ys
    → agree_all after xs ys ≡ true
    → has a xs ≡ true
    → has "" ys ≡ false
    → has a ys ≡ true
agree_all-has after a [] ys same agree found filled = cc
agree_all-has after a (x ∷ xs) [] same agree found filled = absurd (omega arith)
agree_all-has after a (x ∷ xs) (y ∷ ys) same agree found filled =
    ground (arith, agree_all-has after a xs ys (omega arith), (eq_iff x.a y.a).0)

module _ (after : String → String → Bool) where
  any-insert_sorted :
      (p : SingleCommitment → Bool) (x : SingleCommitment) (ys : List SingleCommitment)
      → any p (insert_sorted after x ys) ≡ (p x || any p ys)
  any-insert_sorted p x [] = refl
  any-insert_sorted p x (y ∷ ys) = ground (arith, any-insert_sorted p x ys)

  any-sort :
      (p : SingleCommitment → Bool) (xs : List SingleCommitment) → any p (sort after xs) ≡ any p xs
  unfolding sort
  any-sort p [] = refl
  any-sort p (x ∷ xs) = rw (any-insert_sorted p x (sort after xs), any-sort p xs) refl

  length-insert_sorted :
      (x : SingleCommitment) (ys : List SingleCommitment)
      → length (insert_sorted after x ys) ≡ suc (length ys)
  length-insert_sorted x [] = refl
  length-insert_sorted x (y ∷ ys) = ground (arith, length-insert_sorted x ys)

  length-sort : (xs : List SingleCommitment) → length (sort after xs) ≡ length xs
  unfolding sort
  length-sort [] = refl
  length-sort (x ∷ xs) = rw (length-insert_sorted x (sort after xs), length-sort xs) refl

  -- A text that the second list lacks makes the lists differ.
  pub inputs_differ-has :
      (a : String) (ys xs : List SingleCommitment)
      → has a ys ≡ true
      → has a xs ≡ false
      → has "" xs ≡ false
      → is_nil after xs ≡ false
      → inputs_differ after (some ys) (some xs) ≡ true
  unfolding compare_single_input_commitments_are_equals
  inputs_differ-has a [] xs found lacks filled some_xs = cc
  inputs_differ-has a (y ∷ ys) xs found lacks filled some_xs =
      let own = any-sort (λ item. item.a == a) (y ∷ ys) in
      let other = any-sort (λ item. item.a == a) xs in
      let texts = any-sort (λ item. item.a == "") xs in
      let size = length-sort (y ∷ ys) in
      let other_size = length-sort xs in
      ground (
        arith,
        own,
        other,
        texts,
        size,
        other_size,
        agree_all-has after a (sort after (y ∷ ys)) (sort after xs),
      )

pub any-upto :
    (f : ℕ → Bool) (start n i : ℕ)
    → start ≤ i
    → i < start + n
    → f i ≡ true
    → any f (upto start n) ≡ true
any-upto f start zero i low high e = absurd (omega arith)
any-upto f start (suc n) i low high e =
    ground (arith, any-upto f (suc start) n i, ap f {x = start} {y = i})
