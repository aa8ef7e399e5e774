-- ===== src/MultiSig/RoundTrip.antt =====
-- Commitments that are made hints and read back, in src/guard/multisig/MultiSigUtils.ts.
use ts_gaurd_service.Base.{
  ℕ, zero, suc, ◌+◌, ◌<◌, ◌≤◌, ◌≡◌, refl, ap, Bool, true, false, some, List, [], ◌∷◌, map, String,
  ◌==◌, nat_eq, string_eq, select, ok, Result, arith, eq_refl, sym,
}
use ts_gaurd_service.Base.Results.{map_result, continue_with}
use ts_gaurd_service.MultiSig.Signing.{
  convert_to_hint_bag, convert_hint_bag_to_published_commitment_for_guard,
}
use ts_gaurd_service.MultiSig.{Sigma}
use ts_gaurd_service.MultiSig.Commitments.{
  SingleCommitment, SingleCommitmentJson, ByInput, PublishedCommitment, at_input, is_nil, upto,
  published, as_hint, convert_to_hint_json, of_guard,
  convert_hint_json_to_published_commitment_for_guard, inputs_differ,
  compare_published_commitments_to_be_differ,
}
use ts_gaurd_service.MultiSig.Comparison.{differ-same, inputs_differ-has, any-upto, has}

-- There is a list for each of so many inputs.
abbrev pub HasInputs : PublishedCommitment → ℕ → Type 0
HasInputs c n = (i : ℕ) → i < n → (items : List SingleCommitment) × (at_input i c ≡ some items)

-- The same lists for so many inputs.
abbrev pub SameInputs : PublishedCommitment → PublishedCommitment → ℕ → Type 0
SameInputs c c' n = (i : ℕ) → i < n → at_input i c ≡ at_input i c'

at_input-map :
    {A B : Type 0} (f : A → B) (i : ℕ) (m : ByInput A) {a : A}
    → at_input i m ≡ some a
    → at_input i (map (λ (e : ℕ × A). (e.0, f e.1)) m) ≡ some (f a)
unfolding at_input
at_input-map f i [] h = cc
at_input-map f i ((j, x) ∷ m) {a} h = ground (arith, at_input-map f i m {a = a})

own_hints :
    (pk : String) (items : List SingleCommitment)
    → map published
        (select (λ (item : SingleCommitmentJson). item.h == pk) (map (as_hint pk) items))
      ≡ items
own_hints pk [] = refl
own_hints pk (x ∷ xs) = rw (eq_refl pk) (ap (λ ys. x ∷ ys) (own_hints pk xs))

-- The library keeps the public hints of the bag that it reads from the JSON.
module _ (σ : Sigma) (c : PublishedCommitment) (pk : String) (bag : σ.Hints)
    (kept : (i : ℕ)
      → at_input i (σ.to_json bag).public_hints
        ≡ at_input i (convert_to_hint_json c pk).public_hints) where
  abbrev read_input : ℕ → Result (ℕ × List SingleCommitment)
  read_input i =
      continue_with (of_guard pk (at_input i (σ.to_json bag).public_hints)) λ items. ok (i, items)

  read_input_lem :
      (i : ℕ) (items : List SingleCommitment)
      → at_input i c ≡ some items
      → read_input i ≡ ok (i, items)
  unfolding convert_to_hint_json
  read_input_lem i items h =
      rw (kept i, at_input-map (map (as_hint pk)) i c h, own_hints pk items) refl

  read_inputs :
      (start n : ℕ)
      → ((i : ℕ)
          → start ≤ i
          → i < start + n
          → (items : List SingleCommitment) × (at_input i c ≡ some items))
      → (c' : PublishedCommitment) × (map_result read_input (upto start n) ≡ ok c')
        × ((i : ℕ) → start ≤ i → i < start + n → at_input i c' ≡ at_input i c)
  unfolding map_result at_input
  read_inputs start zero h = ([], refl, λ i p q. absurd (omega arith))
  read_inputs start (suc n) h =
      let (items, here) = h start (omega arith) (omega arith) in
      let (c', read, same) = read_inputs (suc start) n λ i p q. h i (omega arith) (omega arith) in
      (
        (start, items) ∷ c',
        rw (read_input_lem start items here, read) refl,
        λ i p q. ground (arith, here, same i, ap (λ j. at_input j c) {x = start} {y = i}),
      )

-- Commitments to each of so many inputs, of which a guard's bag of hints is made, are read back from
-- the bag for that guard: if the library keeps the public hints that it reads from this JSON, then
-- reading the bag returns, what is read is the same for each of these inputs, and the comparison
-- finds no difference. And it finds a difference to any other commitment that has, for one of
-- these inputs, a text that no item of the commitments has there, unless they have no item there or
-- one without a text.
pub convert-convert_to_hint_bag :
    (σ : Sigma) (is_after : String → String → Bool) (c : PublishedCommitment) (pub_key : String)
    (n : ℕ) (bag : σ.Hints)
    → HasInputs c n
    → convert_to_hint_bag σ c pub_key ≡ ok bag
    → ((read : σ.Hints)
        → σ.from_json (convert_to_hint_json c pub_key) ≡ ok read
        → (i : ℕ)
        → at_input i (σ.to_json read).public_hints
          ≡ at_input i (convert_to_hint_json c pub_key).public_hints)
    → (c' : PublishedCommitment) × (convert_hint_bag_to_published_commitment_for_guard σ bag pub_key
          n
        ≡ ok c')
      × SameInputs c' c n
      × (compare_published_commitments_to_be_differ is_after c c' n ≡ false)
      × ((d : PublishedCommitment) (i : ℕ) (a : String) (ys xs : List SingleCommitment)
          → i < n
          → at_input i d ≡ some ys
          → at_input i c ≡ some xs
          → has a ys ≡ true
          → has a xs ≡ false
          → has "" xs ≡ false
          → is_nil is_after xs ≡ false
          → compare_published_commitments_to_be_differ is_after d c' n ≡ true)
unfolding convert_to_hint_bag convert_hint_bag_to_published_commitment_for_guard
    convert_hint_json_to_published_commitment_for_guard compare_published_commitments_to_be_differ
convert-convert_to_hint_bag σ is_after c pub_key n bag has_inputs made keeps =
    let (c', read, same) =
      read_inputs σ c pub_key bag (keeps bag made) 0 n λ i p q. has_inputs i (omega arith) in
    (
      c',
      read,
      λ i q. same i (omega arith) (omega arith),
      differ-same is_after c c' 0 n (λ i p q. sym (same i p q)),
      λ d i a ys xs q here there found lacks filled some_xs.
          any-upto (λ j. inputs_differ is_after (at_input j d) (at_input j c')) 0 n i (omega arith)
            (omega arith)
            (rw (here, same i (omega arith) (omega arith), there)
              (inputs_differ-has is_after a ys xs found lacks filled some_xs)),
    )
