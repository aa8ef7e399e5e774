-- ===== src/Tests/Transactions.antt =====
-- A payment that is sent, found invalid, or signed too late.
use ts_gaurd_service.Base.{
  inl, ◌+◌, ◌≡◌, refl, arith, some, count, if◌then◌else◌, ◌==◌, string_eq, Bool,
}
use ts_gaurd_service.Constants.{TransactionStatus, sent, invalid, payment, pending_payment}
use ts_gaurd_service.Database.Repository.{rows}
use ts_gaurd_service.Database.Entities.{TransactionEntity, ConfirmedEventEntity}
use ts_gaurd_service.Database.Actions.{
  is_valid_event_tx, update_with_signed_tx, set_tx_status, set_event_status,
}
use ts_gaurd_service.Database.OneValid.{OneValid}
use ts_gaurd_service.Transactions.{
  process_sent_as, proceed_related, confirmed_enough, process_tx, handle_successful_sign,
  set_transaction_as_invalid, mark_as_invalid, notify_if, reset_related,
}
use ts_gaurd_service.Transactions.Cycle.{Moves}
use ts_gaurd_service.Transactions.Steps.{process_tx-Moves}
use ts_gaurd_service.Transactions.Validity.{process_tx-OneValid, late_signature_revives}
use ts_gaurd_service.Transactions.Outcomes.{set_transaction_as_invalid_late, reset_row}
use ts_gaurd_service.Transactions.Confirmed.{confirmed_proceeds, next_row}
use ts_gaurd_service.Tests.Data.{
  test_db, test_env, test_chain, world_with, store_with-OneValid, row_of, tx_of, spent_input,
}

process_tx-Moves_example :
    Moves test_db test_env
      (row_of "b" sent)
      (world_with sent)
      (process_tx test_db test_env (row_of "b" sent) (world_with sent))
process_tx-Moves_example =
    process_tx-Moves test_db test_env (row_of "b" sent) (world_with sent) refl

process_tx-OneValid_example :
    OneValid test_db
      (process_tx test_db test_env (row_of "b" sent) (world_with sent)).1.store.transactions
process_tx-OneValid_example =
    process_tx-OneValid test_db test_env (row_of "b" sent) (world_with sent) refl
      (store_with-OneValid sent)

late_signature_revives_example :
    count (is_valid_event_tx "event" payment) (
      rows test_db.transactions
        (handle_successful_sign test_db test_env
          (tx_of "b" payment)
          (world_with invalid)).1.store.transactions)
    ≡ 0 + 1
unfolding handle_successful_sign update_with_signed_tx
late_signature_revives_example =
    late_signature_revives test_db test_env (tx_of "b" payment) "event" payment (world_with invalid)
      {w' = (handle_successful_sign test_db test_env (tx_of "b" payment) (world_with invalid)).1}
      refl refl

set_transaction_as_invalid_late_example :
    ((q : TransactionEntity → Bool)
      → count q (
          rows test_db.transactions
            (set_transaction_as_invalid test_db test_env
              (row_of "b" sent)
              test_chain
              (some spent_input)
              (world_with sent)).1.store.transactions)
        ≡ count
            (λ (r : TransactionEntity). q (
              if r.tx_id == "b"
              then record r { status = invalid; last_status_update = some 1000 }
              else r))
            (rows test_db.transactions (world_with sent).store.transactions))
    × ((q : ConfirmedEventEntity → Bool)
        → count q (
            rows test_db.events
              (set_transaction_as_invalid test_db test_env
                (row_of "b" sent)
                test_chain
                (some spent_input)
                (world_with sent)).1.store.events)
          ≡ count
              (λ (r : ConfirmedEventEntity).
                q (if r.id == "event" then reset_row pending_payment Bool.true r else r))
              (rows test_db.events (world_with sent).store.events))
unfolding set_transaction_as_invalid mark_as_invalid notify_if reset_related set_tx_status
    set_event_status
set_transaction_as_invalid_late_example =
    set_transaction_as_invalid_late test_db test_env (row_of "b" sent) test_chain (world_with sent)
      spent_input 100 "event" pending_payment
      {w' = (set_transaction_as_invalid test_db test_env (row_of "b" sent) test_chain
        (some spent_input) (world_with sent)).1}
      refl (omega arith) refl refl refl

confirmed_proceeds_example :
    ((q : TransactionEntity → Bool)
      → count q (
          rows test_db.transactions
            (process_sent_as test_db test_env confirmed_enough test_chain
              (row_of "b" sent)
              (world_with sent)).1.store.transactions)
        ≡ count
            (λ (r : TransactionEntity). q (
              if r.tx_id == "b"
              then record r { status = TransactionStatus.completed; last_status_update = some 1000 }
              else r))
            (rows test_db.transactions (world_with sent).store.transactions))
    × ((q : ConfirmedEventEntity → Bool)
        → count q (
            rows test_db.events
              (process_sent_as test_db test_env confirmed_enough test_chain
                (row_of "b" sent)
                (world_with sent)).1.store.events)
          ≡ count
              (λ (r : ConfirmedEventEntity).
                q (if r.id == "event" then next_row test_env payment (row_of "b" sent) r else r))
              (rows test_db.events (world_with sent).store.events))
unfolding process_sent_as proceed_related set_tx_status set_event_status
confirmed_proceeds_example =
    confirmed_proceeds test_db test_env (row_of "b" sent) test_chain (world_with sent) "event"
      {w' = (process_sent_as test_db test_env confirmed_enough test_chain (row_of "b" sent)
        (world_with sent)).1}
      (inl refl) refl refl
