-- ===== src/MultiSig/Sound.antt =====
-- The sound queue of src/guard/multisig/MultiSigHandler.ts: each signer of a stored signature is
-- there once, and a transaction that a caller is given has a proof for each input.
use ts_gaurd_service.Base.{
  ◌≡◌, refl, Bool, true, false, List, [], ◌∷◌, String, if◌then◌else◌, string_eq, select, arith,
}
use ts_gaurd_service.MultiSig.{
  Sigma, Signer, Outcome, resolved, timed_out, invalid_sign, failed, MultiSig,
}
use ts_gaurd_service.MultiSig.Signing.{includes}
use ts_gaurd_service.MultiSig.Messages.{dedupe, guard_keys_of}
use ts_gaurd_service.MultiSig.Kept.{Kept, IsKept, Verifies}

-- Each element once.
abbrev pub Distinct : List String → Type 0
Distinct [] = Unit {0}
Distinct (x ∷ xs) = (includes x xs ≡ false) × Distinct xs

includes-select :
    (p : String → Bool) (x : String) (xs : List String)
    → includes x xs ≡ false
    → includes x (select p xs) ≡ false
includes-select p x [] h = refl
includes-select p x (y ∷ ys) h = ground (arith, includes-select p x ys)

select-Distinct : (p : String → Bool) (xs : List String) → Distinct xs → Distinct (select p xs)
select-Distinct p [] d = tt
select-Distinct p (x ∷ xs) d = go (p x) (select-Distinct p xs d.1) (includes-select p x xs d.0)
  where
    go :
        (b : Bool)
        → Distinct (select p xs)
        → includes x (select p xs) ≡ false
        → Distinct (if b then x ∷ select p xs else select p xs)
    go true h k = (k, h)
    go false h k = h

includes-dedupe :
    (seen : List String) (x : String) (xs : List String)
    → includes x seen ≡ true
    → includes x (dedupe seen xs) ≡ false
unfolding dedupe
includes-dedupe seen x [] h = refl
includes-dedupe seen x (y ∷ ys) h = ground (
  arith,
  includes-dedupe seen x ys,
  includes-dedupe (y ∷ seen) x ys,
  string_eq.beq_iff x y,
  string_eq.beq_iff y x,
)

dedupe-Distinct : (seen xs : List String) → Distinct (dedupe seen xs)
unfolding dedupe
dedupe-Distinct seen [] = tt
dedupe-Distinct seen (x ∷ xs) =
    go (includes x seen) (dedupe-Distinct seen xs) (dedupe-Distinct (x ∷ seen) xs)
      (includes-dedupe (x ∷ seen) x xs (ground (arith, string_eq.beq_iff x x)))
  where
    go :
        (b : Bool)
        → Distinct (dedupe seen xs)
        → Distinct (dedupe (x ∷ seen) xs)
        → includes x (dedupe (x ∷ seen) xs) ≡ false
        → Distinct (if b then dedupe seen xs else x ∷ dedupe (x ∷ seen) xs)
    go true h k l = h
    go false h k l = (l, k)

pub guard_keys_of-Distinct :
    (peers : List Signer) (keys : List String) → Distinct (guard_keys_of peers keys)
unfolding guard_keys_of
guard_keys_of-Distinct peers keys = select-Distinct _ (dedupe [] keys) (dedupe-Distinct [] keys)

-- The predicates of a sound queue.
module _ (σ : Sigma) where
  abbrev pub Proven : Outcome σ → Type 0
  Proven (resolved promise tx) = Verifies σ tx
  Proven (timed_out promise) = Unit {0}
  Proven (invalid_sign promise tx) = Unit {0}
  Proven (failed promise) = Unit {0}

  abbrev pub sound : Kept σ
  sound = record {
    Signers = Distinct;
    Settled = Proven;
    Known = λ _ _. Unit {0};
    alone = λ _. (refl, tt);
    joined = λ _ _ new distinct. (new, distinct);
    of_guards = guard_keys_of-Distinct;
    on_resolved = λ _ _ verifies. verifies;
    on_timed_out = λ _. tt;
    on_invalid_sign = λ _ _. tt;
    on_failed = λ _. tt;
  }

  abbrev pub IsSound : MultiSig σ → Type 0
  IsSound = IsKept sound
