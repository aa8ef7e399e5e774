-- ===== src/Constants.antt =====
-- The enumerations of src/utils/constants.ts, and the transaction types of the chain library by the
-- names that the program uses (`other` is any type besides).
use ts_gaurd_service.Base.{ℕ, ◌≡◌, arith, Eq, enum_eq}

pub data TransactionStatus : Type 0 where
  approved in_sign sign_failed signed sent invalid completed : TransactionStatus

pub data EventStatus : Type 0 where
  pending_payment pending_reward in_payment in_reward completed spent rejected : EventStatus
  timeout reached_limit payment_waiting reward_waiting : EventStatus

pub data OrderStatus : Type 0 where
  pending in_process completed timeout waiting reached_limit : OrderStatus

pub data TransactionType : Type 0 where
  payment reward cold_storage manual arbitrary other : TransactionType

abbrev pub tx_status_index : TransactionStatus → ℕ
tx_status_index approved = 0
tx_status_index in_sign = 1
tx_status_index sign_failed = 2
tx_status_index signed = 3
tx_status_index sent = 4
tx_status_index invalid = 5
tx_status_index TransactionStatus.completed = 6

abbrev pub event_status_index : EventStatus → ℕ
event_status_index pending_payment = 0
event_status_index pending_reward = 1
event_status_index in_payment = 2
event_status_index in_reward = 3
event_status_index EventStatus.completed = 4
event_status_index spent = 5
event_status_index rejected = 6
event_status_index EventStatus.timeout = 7
event_status_index EventStatus.reached_limit = 8
event_status_index payment_waiting = 9
event_status_index reward_waiting = 10

abbrev pub order_status_index : OrderStatus → ℕ
order_status_index pending = 0
order_status_index in_process = 1
order_status_index OrderStatus.completed = 2
order_status_index OrderStatus.timeout = 3
order_status_index waiting = 4
order_status_index OrderStatus.reached_limit = 5

abbrev pub type_index : TransactionType → ℕ
type_index payment = 0
type_index reward = 1
type_index cold_storage = 2
type_index manual = 3
type_index arbitrary = 4
type_index other = 5

pub tx_status_index_injective :
    (a b : TransactionStatus) → tx_status_index a ≡ tx_status_index b → a ≡ b
tx_status_index_injective a b h = ground arith

pub event_status_index_injective :
    (a b : EventStatus) → event_status_index a ≡ event_status_index b → a ≡ b
event_status_index_injective a b h = ground arith

pub order_status_index_injective :
    (a b : OrderStatus) → order_status_index a ≡ order_status_index b → a ≡ b
order_status_index_injective a b h = ground arith

pub type_index_injective : (a b : TransactionType) → type_index a ≡ type_index b → a ≡ b
type_index_injective a b h = ground arith

instance abbrev pub tx_status_eq : Eq TransactionStatus
tx_status_eq = enum_eq tx_status_index tx_status_index_injective

instance abbrev pub event_status_eq : Eq EventStatus
event_status_eq = enum_eq event_status_index event_status_index_injective

instance abbrev pub order_status_eq : Eq OrderStatus
order_status_eq = enum_eq order_status_index order_status_index_injective

instance abbrev pub type_eq : Eq TransactionType
type_eq = enum_eq type_index type_index_injective
