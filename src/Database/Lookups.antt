-- ===== src/Database/Lookups.antt =====
-- What the lookups by key return.
use ts_gaurd_service.Base.{
  ◌≡◌, none, some, String, ◌==◌, string_eq, eq_iff, ◌⊎◌, inl, inr, ok, err, not_found, Option-cases,
  arith, Option, Result, refl, ap,
}
use ts_gaurd_service.Constants.{TransactionType}
use ts_gaurd_service.Database.Repository.{first-find}
use ts_gaurd_service.Database.Entities.{ConfirmedEventEntity, Database, Store}
use ts_gaurd_service.Database.Actions.{
  get_event_by_id, get_event_valid_txs_by_type, find_transactions, write_transactions, write_events,
  write_orders, is_valid_event_tx,
}

module _ (db : Database) (id : String) (s : Store db) where
  pub get_event_by_id-id : (r : ConfirmedEventEntity) → get_event_by_id db id s ≡ some r → r.id ≡ id
  unfolding get_event_by_id
  get_event_by_id-id r e = (eq_iff _ _).0 (first-find db.events (λ x. x.id == id) r s.events e)

  -- The valid transactions of an event are looked up by the event's own id, or there is no event.
  pub get_event_valid_txs_by_type_cases :
      (type : TransactionType)
      → (get_event_valid_txs_by_type db id type s ≡ (err not_found, s))
        ⊎ (get_event_valid_txs_by_type db id type s
            ≡ (ok (find_transactions db (is_valid_event_tx id type) s), s))
  unfolding get_event_valid_txs_by_type
  get_event_valid_txs_by_type_cases type = elim (Option-cases (get_event_by_id db id s)) [
    | inl e ↦ inl (ground arith)
    | inr (r, e) ↦ inr (ground (arith, get_event_by_id-id r e))
  ]

-- A write that is done puts the new table in place.
pub write_transactions-ok :
    (db : Database) (o : Option db.transactions.Table) (s : Store db) {s' : Store db}
    → write_transactions db o s ≡ (ok tt, s')
    → (t : db.transactions.Table) × (o ≡ some t) × (record s { transactions = t } ≡ s')
write_transactions-ok db none s e = cc
write_transactions-ok db (some t) s e = (t, refl, ap (λ (x : Result (Unit {0}) × Store db). x.1) e)

pub write_orders-ok :
    (db : Database) (o : Option db.orders.Table) (s : Store db) {s' : Store db}
    → write_orders db o s ≡ (ok tt, s')
    → (t : db.orders.Table) × (o ≡ some t) × (record s { orders = t } ≡ s')
write_orders-ok db none s e = cc
write_orders-ok db (some t) s e = (t, refl, ap (λ (x : Result (Unit {0}) × Store db). x.1) e)

pub write_events-ok :
    (db : Database) (o : Option db.events.Table) (s : Store db) {s' : Store db}
    → write_events db o s ≡ (ok tt, s')
    → (t : db.events.Table) × (o ≡ some t) × (record s { events = t } ≡ s')
write_events-ok db none s e = cc
write_events-ok db (some t) s e = (t, refl, ap (λ (x : Result (Unit {0}) × Store db). x.1) e)
