-- ===== src/Verification/Chains.antt =====
-- The verification of events and orders against the chains (src/verification/EventVerifier.ts and
-- TransactionVerifier.ts) in place of the arguments of the request verifier.
use ts_gaurd_service.Base.{◌≡◌, true, some, List, Result, ok, String, map}
use ts_gaurd_service.Base.Results.{continue_with, result_bind_ok, ok-injective}
use ts_gaurd_service.Database.Entities.{PaymentTransaction, ConfirmedEventEntity, Database, Store}
use ts_gaurd_service.Database.Actions.{get_event_by_id}
use ts_gaurd_service.Order.{SinglePayment, FeeConfig}
use ts_gaurd_service.Event.{
  Bridge, BridgeChain, CommitmentEntity, is_event_confirmed_enough, verify_event,
}
use ts_gaurd_service.Event.Creation.{
  verify_event_transaction, verify_arbitrary_transaction, expected_order,
}
use ts_gaurd_service.ColdStorage.{Vault}
use ts_gaurd_service.ColdStorage.Verifier.{verify_cold_storage_transaction}
use ts_gaurd_service.Verification.{ChainChecks, Checks, verify_event_transaction_request}
use ts_gaurd_service.Verification.Requests.{event_true, among_true}

module _ (db : Database) (bridge : Bridge) (vault : Vault)
    (chain_checks : String → Result ChainChecks) where
  -- An event is verified with its fee configuration.
  abbrev pub bridge_checks : Checks db
  bridge_checks = record {
    ergo_chain = bridge.configs.ergo_chain;
    get_chain = chain_checks;
    is_event_confirmed_enough = is_event_confirmed_enough db bridge;
    verify_event = λ event s.
        continue_with (bridge.get_event_fee_config event)
          λ fee_config. verify_event db bridge event fee_config s;
    verify_event_transaction = verify_event_transaction db bridge;
    verify_cold_storage_transaction = verify_cold_storage_transaction db bridge vault;
    verify_arbitrary_transaction = verify_arbitrary_transaction db bridge;
  }

  module _ (tx : PaymentTransaction) (s : Store db) where
    -- The transaction pays what is expected for the event, with the fees of its configuration.
    pub record PaysExpected (entity : ConfirmedEventEntity) : Type 0 where
      pub fee_config : FeeConfig
      pub chain : BridgeChain
      pub tx_order : List SinglePayment
      pub expected : List SinglePayment
      pub fee : bridge.get_event_fee_config entity.event_data ≡ ok fee_config
      pub event_verified : verify_event db bridge entity.event_data fee_config s ≡ ok true
      pub confirmed : is_event_confirmed_enough db bridge entity.event_data ≡ ok true
      pub chain_of : bridge.get_chain tx.network ≡ ok chain
      pub extracted : chain.extract_transaction_order tx ≡ ok tx_order
      pub computed :
          expected_order db bridge tx.tx_type tx entity.event_data fee_config
            (map (λ (c : CommitmentEntity). c.wid) (bridge.get_event_commitments tx.event_id))
            s
          ≡ ok expected
      pub equal : bridge.is_equal tx_order expected ≡ true

    -- A request for an event's transaction that verifies is for a known event, which is confirmed
    -- enough and verified on its chains with its fee configuration, and the order extracted from
    -- the transaction is equal to the one this guard computes for the event.
    pub verified_request-PaysExpected :
        {s' : Store db}
        → verify_event_transaction_request db bridge_checks tx s ≡ (ok true, s')
        → (entity : ConfirmedEventEntity) × (get_event_by_id db tx.event_id s ≡ some entity)
          × PaysExpected entity
    unfolding verify_event_transaction
    verified_request-PaysExpected {s'} e =
        let (entity, found, _, confirmed, event_verified, among) =
          event_true db bridge_checks tx s {s' = s'} e in
        let (_, _, valid) = among_true db bridge_checks tx s entity {s' = s'} among in
        let (chain, chain_of, e1) = result_bind_ok (bridge.get_chain tx.network) _ valid in
        let (fee_config, fee, e2) =
          result_bind_ok (bridge.get_event_fee_config entity.event_data) _ e1 in
        let (tx_order, extracted, e3) = result_bind_ok (chain.extract_transaction_order tx) _ e2 in
        let (expected, computed, e4) =
          result_bind_ok (expected_order db bridge tx.tx_type tx entity.event_data fee_config _ s) _
            e3 in
        (
          entity,
          found,
          record {
            fee_config = fee_config;
            chain = chain;
            tx_order = tx_order;
            expected = expected;
            fee = fee;
            event_verified = rw (fee, continue_with) at event_verified;
            confirmed = confirmed;
            chain_of = chain_of;
            extracted = extracted;
            computed = computed;
            equal = ok-injective e4;
          },
        )
