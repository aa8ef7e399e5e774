-- ===== src/Database/OneValid.antt =====
-- An event has one transaction of a type that is not invalid, at most, and an order has one: what
-- writes to the transaction table need, to keep this.
use ts_gaurd_service.Base.{
  ◌≤◌, ◌≡◌, refl, ◌⊎◌, Bool, true, false, ◌&&◌, Option, none, some, String, string_eq, arith, count,
  count_mono, count-update_le,
}
use ts_gaurd_service.Constants.{TransactionType, tx_status_eq, type_eq, invalid}
use ts_gaurd_service.Database.Repository.{rows}
use ts_gaurd_service.Database.Entities.{TransactionEntity, Database, Store}
use ts_gaurd_service.Database.Actions.{is_valid_event_tx, is_valid_order_tx, write_transactions}

abbrev pub is_given : Option String → Bool
is_given none = false
is_given (some x) = true

-- A transaction belongs to an event or to an order, not to both.
abbrev pub has_both : TransactionEntity → Bool
has_both r = is_given r.event && is_given r.order

pub record OneValid (db : Database) (t : db.transactions.Table) : Type 0 where
  pub by_event :
      (event_id : String) (type : TransactionType)
      → count (is_valid_event_tx event_id type) (rows db.transactions t) ≤ 1
  pub by_order :
      (order_id : String) → count (is_valid_order_tx order_id) (rows db.transactions t) ≤ 1
  pub exclusive : count has_both (rows db.transactions t) ≡ 0

-- The new row of a transaction counts for no event, order or type that the old one did not.
pub record NoMore (r r' : TransactionEntity) : Type 0 where
  pub same_event : r'.event ≡ r.event
  pub same_order : r'.order ≡ r.order
  pub same_type : (r.event ≡ none) ⊎ (r'.type ≡ r.type)
  pub not_revived : r.status ≡ invalid → r'.status ≡ invalid

NoMore-event :
    (r r' : TransactionEntity)
    → NoMore r r'
    → (event_id : String) (type : TransactionType) → is_valid_event_tx event_id type r' ≡ true
    → is_valid_event_tx event_id type r ≡ true
NoMore-event r r' h event_id type v = ground arith

NoMore-order :
    (r r' : TransactionEntity)
    → NoMore r r'
    → (order_id : String) → is_valid_order_tx order_id r' ≡ true
    → is_valid_order_tx order_id r ≡ true
NoMore-order r r' h order_id v = ground (arith, h.same_order, h.not_revived)

NoMore-both : (r r' : TransactionEntity) → NoMore r r' → has_both r' ≡ true → has_both r ≡ true
NoMore-both r r' h v = ground (arith, h.same_order, h.same_event)

module _ {db : Database} {t t' : db.transactions.Table} (h : OneValid db t) where
  pub update-OneValid :
      (p a : TransactionEntity → Bool) (f : TransactionEntity → TransactionEntity)
      → db.transactions.update p f t ≡ some t'
      → ((r : TransactionEntity) → p r ≡ true → a r ≡ true → NoMore r (f r))
      → count (λ r. p r && a r) (rows db.transactions t) ≡ count p (rows db.transactions t)
      → OneValid db t'
  update-OneValid p a f e keeps all = record {
    by_event = λ event_id type. rw (db.transactions.count-update p f t t' e _) (
        omega (
          arith,
          h.by_event event_id type,
          count-update_le p a (is_valid_event_tx event_id type) (is_valid_event_tx event_id type) f
              (λ r pr ar. NoMore-event r (f r) (keeps r pr ar) event_id type) (λ r v. v) _ all,
        ));
    by_order = λ order_id. rw (db.transactions.count-update p f t t' e _) (
        omega (
          arith,
          h.by_order order_id,
          count-update_le p a (is_valid_order_tx order_id) (is_valid_order_tx order_id) f
              (λ r pr ar. NoMore-order r (f r) (keeps r pr ar) order_id) (λ r v. v) _ all,
        ));
    exclusive = rw (db.transactions.count-update p f t t' e _) (
        omega (
          arith,
          h.exclusive,
          count-update_le p a has_both has_both f (λ r pr ar. NoMore-both r (f r) (keeps r pr ar))
              (λ r v. v) _ all,
        ));
  }

  pub insert-OneValid :
      (r : TransactionEntity)
      → db.transactions.insert r t ≡ some t'
      → ((event_id : String) (type : TransactionType)
          → is_valid_event_tx event_id type r ≡ true
          → count (is_valid_event_tx event_id type) (rows db.transactions t) ≡ 0)
      → ((order_id : String)
          → is_valid_order_tx order_id r ≡ true
          → count (is_valid_order_tx order_id) (rows db.transactions t) ≡ 0)
      → has_both r ≡ false
      → OneValid db t'
  insert-OneValid r e events orders one = record {
    by_event = λ event_id type.
        rw (db.transactions.count-insert r t t' e _)
          (ground (arith, h.by_event event_id type, events event_id type));
    by_order = λ order_id.
        rw (db.transactions.count-insert r t t' e _)
          (ground (arith, h.by_order order_id, orders order_id));
    exclusive = rw (db.transactions.count-insert r t t' e _) (ground (arith, h.exclusive));
  }

-- A write that fails leaves the table as it was.
pub write-OneValid :
    (db : Database) (o : Option db.transactions.Table) (s : Store db)
    → OneValid db s.transactions
    → ((t : db.transactions.Table) → o ≡ some t → OneValid db t)
    → OneValid db (write_transactions db o s).1.transactions
write-OneValid db none s h k = h
write-OneValid db (some t) s h k = k t refl

-- Rows that each count for no more than before keep the table so.
pub Evolves-OneValid :
    (db : Database) {t t' : db.transactions.Table}
    → OneValid db t
    → (change : TransactionEntity → TransactionEntity)
    → ((q : TransactionEntity → Bool)
        → count q (rows db.transactions t') ≡ count (λ r. q (change r)) (rows db.transactions t))
    → ((r : TransactionEntity) → NoMore r (change r))
    → OneValid db t'
Evolves-OneValid db {t} h change explains related = record {
  by_event = λ event_id type. rw (explains (is_valid_event_tx event_id type)) (
      omega (
        arith,
        h.by_event event_id type,
        count_mono _ (is_valid_event_tx event_id type)
            (λ r. NoMore-event r (change r) (related r) event_id type) (rows db.transactions t),
      ));
  by_order = λ order_id. rw (explains (is_valid_order_tx order_id)) (
      omega (
        arith,
        h.by_order order_id,
        count_mono _ (is_valid_order_tx order_id)
            (λ r. NoMore-order r (change r) (related r) order_id) (rows db.transactions t),
      ));
  exclusive = rw (explains has_both) (
      omega (
        arith,
        h.exclusive,
        count_mono _ has_both (λ r. NoMore-both r (change r) (related r)) (rows db.transactions t),
      ));
}
