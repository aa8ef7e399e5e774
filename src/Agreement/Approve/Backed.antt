-- ===== src/Agreement/Approve/Backed.antt =====
-- An approval message takes effect where enough guards signed it.
use ts_gaurd_service.Base.{
  ℕ, suc, ◌≤◌, ◌≡◌, refl, ◌⊎◌, inl, inr, Bool, true, false, Option, none, some, List, [], ◌∷◌,
  String, ltb, ◌==◌, string_eq, length, arith, Result, ok, err, Bool-cases,
}
use ts_gaurd_service.Database.Entities.{PaymentTransaction, Database}
use ts_gaurd_service.Agreement.{Peer, Verifier, Guard, get_elem?, signatures_of}
use ts_gaurd_service.Agreement.Approve.{
  process_approval_message, approve_counted, counted_after, verified_signs,
}

counted_after-some :
    (r : Result Bool) (after : Result (Option ℕ)) (n : ℕ)
    → counted_after r after ≡ ok (some n)
    → (r ≡ ok true) × (m : ℕ) × (after ≡ ok (some m)) × (n ≡ suc m)
counted_after-some (err e) after n h = ground arith
counted_after-some (ok false) after n h = ground arith
counted_after-some (ok true) (err e) n h = ground arith
counted_after-some (ok true) (ok none) n h = ground arith
counted_after-some (ok true) (ok (some m)) n h = (refl, m, refl, ground arith)

module _ (db : Database) (guard : Guard) (tx_id : String) (timestamp : ℕ) where
  -- The signature, if there is one, verifies as that of the guard with this index.
  abbrev pub Verifies : ℕ → String → Type 0
  Verifies i signature =
      (signature == "") ≡ false
      → guard.verify
          (record { tx_id = tx_id; timestamp = timestamp; guard_pk = get_elem? guard.guard_pks i })
          signature (get_elem? guard.guard_pks i)
        ≡ ok true

  abbrev pub AllVerify : ℕ → List String → Type 0
  AllVerify i [] = Unit {0}
  AllVerify i (signature ∷ rest) = Verifies i signature × AllVerify (suc i) rest

  signs_cases :
      (i : ℕ) (signatures : List String) (n : ℕ)
      → verified_signs db guard tx_id timestamp i signatures ≡ ok (some n)
      → (n ≡ length (signatures_of signatures)) × AllVerify i signatures
  unfolding verified_signs
  signs_cases i [] n e = (ground arith, tt)
  signs_cases i (signature ∷ rest) n e = elim (Bool-cases (signature == "")) [
    | inl empty ↦
        let (counted, others) = signs_cases (suc i) rest n (rw empty at e) in
        (ground (arith, counted), ((λ given. ground arith), others))
    | inr given ↦
        let (verified, m, after, more) =
          counted_after-some
            (guard.verify
              (record {
                tx_id = tx_id;
                timestamp = timestamp;
                guard_pk = get_elem? guard.guard_pks i;
              })
              signature (get_elem? guard.guard_pks i))
            (verified_signs db guard tx_id timestamp (suc i) rest) n (rw given at e) in
        let (counted, others) = signs_cases (suc i) rest m after in
        (ground (arith, counted, more), ((λ _. verified), others))
  ]

-- An approval message changes nothing unless at least the required number of signatures is there,
-- and each of them verifies as that of the guard whose index it has.
pub approval_is_backed :
    (db : Database) (verifier : Verifier db) (guard : Guard) (tx : PaymentTransaction)
    (sender_index : ℕ) (signatures : List String) (timestamp : ℕ) (w : Peer db)
    → ((process_approval_message db verifier guard tx sender_index signatures timestamp w).1 ≡ w)
      ⊎ (guard.required_sign ≤ length (signatures_of signatures))
        × AllVerify db guard tx.tx_id timestamp 0 signatures
unfolding process_approval_message approve_counted
approval_is_backed db verifier guard tx sender_index signatures timestamp w =
    counted (verified_signs db guard tx.tx_id timestamp 0 signatures) refl
  where
    counted :
        (r : Result (Option ℕ))
        → verified_signs db guard tx.tx_id timestamp 0 signatures ≡ r
        → ((process_approval_message db verifier guard tx sender_index signatures timestamp w).1
            ≡ w)
          ⊎ (guard.required_sign ≤ length (signatures_of signatures))
            × AllVerify db guard tx.tx_id timestamp 0 signatures
    counted (err e) v = inl (rw v refl)
    counted (ok none) v = inl (rw v refl)
    counted (ok (some n)) v =
        let (number, verify) = signs_cases db guard tx.tx_id timestamp 0 signatures n v in
        elim (Bool-cases (ltb n guard.required_sign)) [
          | inl few ↦ inl (rw (v, few) refl)
          | inr many ↦ inr (ground (arith, number), verify)
        ]
