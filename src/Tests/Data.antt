-- ===== src/Tests/Data.antt =====
-- Concrete transactions, events, orders, chains and guards.
use ts_gaurd_service.Base.{
  ◌≤◌, refl, Bool, true, false, none, some, [], ◌∷◌, String, arith, ok, count, ◌==◌, string_eq,
}
use ts_gaurd_service.Constants.{
  TransactionStatus, EventStatus, TransactionType, in_payment, pending_payment, payment,
}
use ts_gaurd_service.Database.Entities.{
  PaymentTransaction, TransactionEntity, ConfirmedEventEntity, Database, Store,
}
use ts_gaurd_service.Database.Actions.{is_valid_event_tx, is_valid_order_tx}
use ts_gaurd_service.Database.OneValid.{OneValid}
use ts_gaurd_service.Transactions.{Chain, Environment, World, InvalidationDetails, confirmed_enough}
use ts_gaurd_service.Agreement.{Agreement, Peer, Verifier, Guard}
use ts_gaurd_service.Order.{OrderConfigs, FeeConfig}
use ts_gaurd_service.Event.{BridgeChain, Bridge, CommitmentEntity}
use ts_gaurd_service.Tests.Tables.{list_repository}

abbrev pub tx_of : String → TransactionType → PaymentTransaction
tx_of id type = record {
  network = "ergo";
  tx_id = id;
  event_id = "event";
  tx_bytes = "";
  tx_type = type;
}

-- The JSON form is the id, and stands for a payment.
abbrev pub test_db : Database
test_db = record {
  transactions = list_repository (λ r. r.tx_id);
  events = list_repository (λ r. r.id);
  orders = list_repository (λ r. r.id);
  to_json = λ tx. tx.tx_id;
  from_json = λ json. some (tx_of json payment);
}

abbrev pub row_of : String → TransactionStatus → TransactionEntity
row_of id status = record {
  tx_id = id;
  tx_json = id;
  type = payment;
  chain = "ergo";
  status = status;
  last_check = 10;
  event = some "event";
  last_status_update = some 1;
  failed_in_sign = false;
  sign_failed_count = 0;
  required_sign = 3;
  order = none;
}

abbrev pub event_row : EventStatus → ConfirmedEventEntity
event_row status = record {
  id = "event";
  event_data = record {
    height = 1;
    from_chain = "cardano";
    to_chain = "ergo";
    from_address = "from";
    to_address = "to";
    amount = 1000000;
    bridge_fee = 100;
    network_fee = 50;
    source_chain_height = 1;
    source_block_id = "block";
    box_serialized = "box";
    wids_hash = "wids";
    wids_count = 2;
    source_tx_id = "source";
    source_chain_token_id = "ada";
    target_chain_token_id = "rsada";
    spend_height = none;
  };
  status = status;
  first_try = none;
  unexpected_fails = 0;
}

abbrev pub empty_store : Store test_db
empty_store = record { transactions = ([], refl); events = ([], refl); orders = ([], refl) }

-- An event that awaits its payment.
abbrev pub pending_store : Store test_db
pending_store = record (empty_store) { events = (event_row pending_payment ∷ [], refl) }

-- An event and its one payment, with the status.
abbrev pub store_with : TransactionStatus → Store test_db
store_with status = record {
  transactions = (row_of "b" status ∷ [], refl);
  events = (event_row in_payment ∷ [], refl);
  orders = ([], refl);
}

pub store_with-OneValid :
    (status : TransactionStatus) → OneValid test_db (store_with status).transactions
store_with-OneValid status = record {
  by_event = λ event_id type. at_most (is_valid_event_tx event_id type (row_of "b" status));
  by_order = λ order_id. at_most (is_valid_order_tx order_id (row_of "b" status));
  exclusive = refl;
}
  where
    at_most : (b : Bool) → count (λ (c : Bool). c) (b ∷ []) ≤ 1
    at_most b = ground arith

abbrev pub test_chain : Chain
test_chain = record {
  get_height = ok 100;
  get_tx_confirmation_status = λ _ _. ok confirmed_enough;
  is_tx_in_mempool = λ _. ok false;
  is_tx_valid = λ _ _. ok (record { is_valid = true; details = none });
  submit_transaction = λ _. ok tt;
  get_tx_required_confirmation = λ _. 20;
}

abbrev pub test_env : Environment
test_env = record {
  get_chain = λ _. ok test_chain;
  ergo_chain = "ergo";
  now = 1000;
  tx_sign_timeout = 300;
}

abbrev pub spent_input : InvalidationDetails
spent_input = record { reason = "spent"; unexpected = true }

abbrev pub world_with : TransactionStatus → World test_db
world_with status = record { store = store_with status; outputs = [] }

abbrev pub no_agreement : Agreement
no_agreement = record {
  transaction_queue = [];
  transactions = [];
  event_agreed_transactions = [];
  order_agreed_transactions = [];
  agreed_cold_storage_transactions = [];
  transaction_approvals = [];
  approved_transactions = [];
  arrays = [];
}

abbrev pub accepting : Verifier test_db
accepting = record {
  verify_tx_common_conditions = λ _ _. ok true;
  verify_event_transaction_request = λ _ s. (ok true, s);
  verify_cold_storage_transaction_request = λ _ _. ok true;
  verify_arbitrary_transaction_request = λ _ _. ok true;
  same_transactions = λ _ _. refl;
}

-- One of two guards, in the turn of the first, whose signature is a guard's key.
abbrev pub test_guard : Guard
test_guard = record {
  now = 60;
  index = 1;
  guard_pks = "pk0" ∷ "pk1" ∷ [];
  required_sign = 2;
  verify = λ _ signature pk. ok (elim pk [ none ↦ false | some k ↦ signature == k ]);
  sign = λ _. ok "pk1";
  send = λ _. ok tt;
}

abbrev pub peer_with : Store test_db → Agreement → Peer test_db
peer_with s a = record { store = s; agreement = a; sent = [] }

abbrev pub test_configs : OrderConfigs
test_configs = record {
  ergo_chain = "ergo";
  erg = "erg";
  watchers_share_percent = 50;
  watchers_emission_share_percent = 30;
  emission_token_id = "emission";
  emission_address = "emissions";
  bridge_fee_repo_address = "bridge_fees";
  network_fee_repo_address = "network_fees";
  minimum_erg = 1000;
  additional_erg_on_payment = 2000;
  is_native_token = λ _ token_id. ok (token_id == "erg");
  get_ergo_token_id = λ _ token_id. ok token_id;
  get_permit_address = λ chain. ok chain;
  hex = λ text. text;
}

abbrev pub test_fee : FeeConfig
test_fee = record {
  bridge_fee = 700;
  network_fee = 50;
  fee_ratio = 1;
  fee_ratio_divisor = 10000;
  rsn_ratio = 2;
  rsn_ratio_divisor = 10;
}

-- A chain that answers, and generates a transaction of the given type.
abbrev pub test_bridge_chain : BridgeChain
test_bridge_chain = record {
  get_minimum_native_token = 10;
  get_rwt_token = "rwt";
  is_confirmed_enough = λ _. ok true;
  verify_event = λ _ _. ok true;
  extract_transaction_order = λ _. ok [];
  generate_transaction = λ event_id type _ _ _ _ _. ok (tx_of event_id type);
}

abbrev pub commitment_of : String → CommitmentEntity
commitment_of wid = record {
  event_id = "event";
  wid = wid;
  height = 0;
  spend_block = none;
  rwt_count = some 4;
  commitment = wid;
  box_serialized = "box";
}

-- In the turn of the first of two guards, which is this guard's.
abbrev pub test_bridge : Bridge
test_bridge = record {
  configs = test_configs;
  now = 1000;
  time_before = λ _. 60;
  time_after = λ _. 60;
  guards_len = 2;
  guard_id = 0;
  event_timeout = 100;
  order_timeout = 100;
  event_confirmation = 2;
  get_chain = λ _. ok test_bridge_chain;
  ergo = record {
    get_height = ok 100;
    get_box_rwt = λ _. ok 8;
    get_box_native_token = λ _. ok 40;
    get_box_wid = λ box. ok box;
    verify_event_rwt = λ _ _. ok true;
    get_guards_config_box = ok "guards";
  };
  get_event_fee_config = λ _. ok test_fee;
  tx_id_to_event_id = λ _. "event";
  decode_box = λ box. box;
  commitments = [];
  get_event_commitments = λ _. commitment_of "w0" ∷ commitment_of "w1" ∷ [];
  wids_hash = λ _. "wids";
  commitment_from_event = λ _ wid. wid;
  is_equal = λ _ _. true;
  decode_order = λ _. ok [];
  encode_order = λ _. "";
}
