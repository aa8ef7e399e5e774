-- ===== src/Database/Entities.antt =====
-- The rows of src/db/entities/{TransactionEntity,ConfirmedEventEntity,ArbitraryEntity}.ts, and the
-- payment transaction and event data of the chain libraries by the fields that the service reads.
-- A relation to another entity is the other's key. Times are in seconds.
use ts_gaurd_service.Base.{ℕ, Bool, Option, String}
use ts_gaurd_service.Constants.{TransactionStatus, EventStatus, OrderStatus, TransactionType}
use ts_gaurd_service.Database.Repository.{Repository}

pub record PaymentTransaction : Type 0 where
  pub network : String
  pub tx_id : String
  pub event_id : String
  pub tx_bytes : String
  pub tx_type : TransactionType

pub record EventData : Type 0 where
  pub height : ℕ
  pub from_chain : String
  pub to_chain : String
  pub from_address : String
  pub to_address : String
  pub amount : ℕ
  pub bridge_fee : ℕ
  pub network_fee : ℕ
  pub source_tx_id : String
  pub source_chain_height : ℕ
  pub source_block_id : String
  pub box_serialized : String
  pub wids_hash : String
  pub wids_count : ℕ
  pub source_chain_token_id : String
  pub target_chain_token_id : String
  pub spend_height : Option ℕ

pub record TransactionEntity : Type 0 where
  pub tx_id : String
  pub tx_json : String
  pub type : TransactionType
  pub chain : String
  pub status : TransactionStatus
  pub last_check : ℕ
  pub event : Option String
  pub last_status_update : Option ℕ
  pub failed_in_sign : Bool
  pub sign_failed_count : ℕ
  pub required_sign : ℕ
  pub order : Option String

pub record ConfirmedEventEntity : Type 0 where
  pub id : String
  pub event_data : EventData
  pub status : EventStatus
  pub first_try : Option ℕ
  pub unexpected_fails : ℕ

pub record ArbitraryEntity : Type 0 where
  pub id : String
  pub chain : String
  pub order_json : String
  pub status : OrderStatus
  pub first_try : Option ℕ
  pub unexpected_fails : ℕ

-- The three repositories, and the JSON form of a payment transaction.
pub record Database : Type 1 where
  pub transactions : Repository TransactionEntity (λ r. r.tx_id)
  pub events : Repository ConfirmedEventEntity (λ r. r.id)
  pub orders : Repository ArbitraryEntity (λ r. r.id)
  pub to_json : PaymentTransaction → String
  pub from_json : String → Option PaymentTransaction

-- The contents of the tables.
pub record Store (db : Database) : Type 0 where
  pub transactions : db.transactions.Table
  pub events : db.events.Table
  pub orders : db.orders.Table
