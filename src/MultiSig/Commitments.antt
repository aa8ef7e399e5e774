-- ===== src/MultiSig/Commitments.antt =====
-- MultiSigUtils of src/guard/multisig/MultiSigUtils.ts: commitments to a signature, as they are
-- published and as the hints of the ledger library hold them. The keys of an object of commitments
-- are the positions of inputs. That the compared lists are sorted in place is left out: they are
-- sorted again whenever they are compared.
use ts_gaurd_service.Base.{
  ℕ, zero, suc, Bool, true, false, not, ◌&&◌, ◌||◌, Option, none, some, List, [], ◌∷◌, map, String,
  if◌then◌else◌, ◌==◌, nat_eq, string_eq, length, any, select, Result, ok, err, null_reference,
}
use ts_gaurd_service.Base.Results.{map_result, continue_with}

pub record SingleCommitment : Type 0 where
  pub a : String
  pub position : String

pub record SingleCommitmentJson : Type 0 where
  pub hint : String
  pub op : String
  pub h : String
  pub type : String
  pub a : String
  pub secret : Option String
  pub position : String

-- An object whose keys are the positions of inputs.
abbrev pub ByInput : Type 0 → Type 0
ByInput A = List (ℕ × A)

abbrev pub PublishedCommitment : Type 0
PublishedCommitment = ByInput (List SingleCommitment)

pub record CommitmentJson : Type 0 where
  pub secret_hints : ByInput (List SingleCommitmentJson)
  pub public_hints : ByInput (List SingleCommitmentJson)

module _ {A : Type 0} where
  unfoldable pub at_input : ℕ → ByInput A → Option A
  at_input i [] = none
  at_input i ((j, a) ∷ rest) = if j == i then some a else at_input i rest

-- The positions from `start`, `n` of them.
abbrev pub upto : ℕ → ℕ → List ℕ
upto start zero = []
upto start (suc n) = start ∷ upto (suc start) n

abbrev pub is_public : SingleCommitmentJson → Bool
is_public item = elim item.secret [ none ↦ true | some s ↦ s == "" ]

abbrev pub published : SingleCommitmentJson → SingleCommitment
published item = record { a = item.a; position = item.position }

unfoldable pub generated_commitment_to_publish_commitment : CommitmentJson → PublishedCommitment
generated_commitment_to_publish_commitment commitment_json =
    map (λ (e : ℕ × List SingleCommitmentJson). (e.0, map published (select is_public e.1)))
      commitment_json.public_hints

abbrev pub as_hint : String → SingleCommitment → SingleCommitmentJson
as_hint pub_key commitment = record {
  hint = "cmtReal";
  op = "205";
  h = pub_key;
  type = "dlog";
  a = commitment.a;
  secret = none;
  position = commitment.position;
}

-- The JSON from which `convertToHintBag` makes a bag of hints.
unfoldable pub convert_to_hint_json : PublishedCommitment → String → CommitmentJson
convert_to_hint_json commitments pub_key = record {
  secret_hints = map (λ (e : ℕ × List SingleCommitment). (e.0, [])) commitments;
  public_hints =
      map (λ (e : ℕ × List SingleCommitment). (e.0, map (as_hint pub_key) e.1)) commitments;
}

abbrev pub of_guard : String → Option (List SingleCommitmentJson) → Result (List SingleCommitment)
of_guard guard_pk none = err null_reference
of_guard guard_pk (some items) =
    ok (map published (select (λ (item : SingleCommitmentJson). item.h == guard_pk) items))

-- The loop of `convertHintBagToPublishedCommitmentForGuard`, over the JSON of the bag.
unfoldable pub convert_hint_json_to_published_commitment_for_guard :
    CommitmentJson → String → ℕ → Result PublishedCommitment
convert_hint_json_to_published_commitment_for_guard commitment_json guard_pk input_count =
    map_result
      (λ i.
        continue_with (of_guard guard_pk (at_input i commitment_json.public_hints))
          λ items. ok (i, items))
      (upto 0 input_count)

-- `is_after` says that `localeCompare` is positive.
module _ (is_after : String → String → Bool) where
  abbrev pub insert_sorted : SingleCommitment → List SingleCommitment → List SingleCommitment
  insert_sorted x [] = x ∷ []
  insert_sorted x (y ∷ ys) =
      let rest = insert_sorted x ys in
      if is_after x.position y.position then y ∷ rest else x ∷ y ∷ ys

  unfoldable pub sort : List SingleCommitment → List SingleCommitment
  sort [] = []
  sort (x ∷ xs) = insert_sorted x (sort xs)

  -- No item differs from the one at its place in the other list, if that has a text.
  abbrev pub agree_all : List SingleCommitment → List SingleCommitment → Bool
  agree_all (x ∷ xs) (y ∷ ys) = (y.a == "" || x.a == y.a) && agree_all xs ys
  agree_all _ _ = true

  unfoldable pub compare_single_input_commitments_are_equals :
      List SingleCommitment → List SingleCommitment → Bool
  compare_single_input_commitments_are_equals item1 item2 = agree_all (sort item1) (sort item2)

  abbrev pub is_nil : List SingleCommitment → Bool
  is_nil [] = true
  is_nil (_ ∷ _) = false

  abbrev pub inputs_differ : Option (List SingleCommitment) → Option (List SingleCommitment) → Bool
  inputs_differ (some item1) (some item2) =
      not (is_nil item1)
      && not (is_nil item2)
      && not
          (length item2 == length item1 && compare_single_input_commitments_are_equals item1 item2)
  inputs_differ _ _ = false

  unfoldable pub compare_published_commitments_to_be_differ :
      PublishedCommitment → PublishedCommitment → ℕ → Bool
  compare_published_commitments_to_be_differ item1 item2 input_length =
      any (λ i. inputs_differ (at_input i item1) (at_input i item2)) (upto 0 input_length)
