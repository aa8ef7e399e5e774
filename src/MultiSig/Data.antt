-- ===== src/MultiSig/Data.antt =====
-- The data of src/guard/multisig: Interfaces.ts, the members of the handler, and what it takes of the
-- ledger library, of keys, clock, encryption and JSON.
use ts_gaurd_service.Base.{ℕ, Bool, Option, List, String, nat_eq, string_eq, Result, Map}
use ts_gaurd_service.MultiSig.Commitments.{CommitmentJson, PublishedCommitment}

-- What is used of the library `ergo-lib-wasm-nodejs`.
pub record Sigma : Type 1 where
  pub ReducedTx : Type 0
  pub Tx : Type 0
  pub Box : Type 0
  pub Hints : Type 0
  pub InputHints : Type 0
  pub Proposition : Type 0
  pub Context : Type 0
  pub Bytes : Type 0
  pub reduced_id : ReducedTx → String
  pub reduced_inputs : ReducedTx → ℕ
  pub generate_commitments : ReducedTx → Result Hints
  pub to_json : Hints → CommitmentJson
  pub from_json : CommitmentJson → Result Hints
  pub no_hints : Hints
  pub all_hints_for_input : ℕ → Hints → InputHints
  pub add_hints_for_input : ℕ → InputHints → Hints → Hints
  -- Of the text `cd` and the key, read as bytes.
  pub proposition_of_key : String → Proposition
  pub extract_hints :
      Tx → Context → List Box → List Box → List Proposition → List Proposition → Result Hints
  pub sign_multi : ReducedTx → Hints → Result Tx
  pub parse : Bytes → Result Tx
  pub serialize : Tx → Bytes
  pub tx_id : Tx → String
  pub inputs : Tx → ℕ
  pub verify_tx_input_proof : ℕ → Context → Tx → List Box → List Box → Result Bool
  pub to_base64 : Bytes → String
  pub from_base64 : String → Bytes

pub record ApproveSigner : Type 0 where
  pub id : String
  pub challenge : String

pub record Signer : Type 0 where
  pub id : Option String
  pub pub_key : String
  pub unapproved : List ApproveSigner

-- An element of an array of commitments: a hole, which an assignment beyond the end leaves,
-- `undefined`, or a commitment.
pub data Slot : Type 0 where
  hole absent : Slot
  committed : PublishedCommitment → Slot

pub record SignedCommitment : Type 0 where
  pub index : ℕ
  pub commitment : PublishedCommitment
  pub sign : String

pub record SignPayload : Type 0 where
  pub tx : String
  pub tx_id : String
  pub signed : List String
  pub simulated : List String
  pub commitments : List SignedCommitment

-- A payload by the type of its message.
pub data Payload : Type 0 where
  -- The nonce, and the sender's id.
  register : String → String → Payload
  -- The nonce, the nonce to sign, which may be empty, and the sender's id.
  approve : String → String → String → Payload
  commitment : String → PublishedCommitment → Payload
  sign : SignPayload → Payload

-- A missing id or signature is the empty text; a negative index is dropped as one too large is.
pub record CommunicationMessage : Type 0 where
  pub payload : Payload
  pub index : Option ℕ
  pub id : String
  pub sign : String

-- A message without a receiver is broadcast.
pub record Sent : Type 0 where
  pub message : CommunicationMessage
  pub receiver : Option String

module _ (σ : Sigma) where
  open σ use {ReducedTx, Tx, Box, Hints, Context, Bytes}

  pub record Sign : Type 0 where
    pub signed : List String
    pub simulated : List String
    pub transaction : Bytes

  -- `resolve` and `reject` name the promise that they settle.
  pub record TxQueued : Type 0 where
    pub tx : Option ReducedTx
    pub boxes : List Box
    pub data_boxes : List Box
    pub secret : Option Hints
    pub sign : Option Sign
    pub commitments : List Slot
    pub commitment_signs : List String
    pub resolve : Option ℕ
    pub reject : Option ℕ
    pub create_time : ℕ
    pub required_signer : ℕ

  -- The calls of `resolve` and `reject`, of which the first settles a promise.
  pub data Outcome : Type 0 where
    resolved : ℕ → Tx → Outcome
    timed_out : ℕ → Outcome
    invalid_sign : ℕ → Tx → Outcome
    failed : ℕ → Outcome

  -- The handler's fields, with what it sent, the promises it settled, the timers that run, and
  -- whether the semaphore is held when no step runs.
  pub record MultiSig : Type 0 where
    pub transactions : Map TxQueued
    pub peers : List Signer
    pub nonce : Option String
    pub index : Option ℕ
    pub sent : List Sent
    pub outcomes : List Outcome
    pub delayed : List String
    pub held : Bool

  -- What the guard reads in a step.
  pub record Cosigner : Type 0 where
    pub public_key : String
    pub dialer_id : String
    pub now : ℕ
    pub random : String
    pub shuffle : List String → List String
    pub tx_sign_timeout : ℕ
    pub state_context : Result Context
    pub stringify : Payload → ℕ → String → String
    pub stringify_relayed : String → PublishedCommitment → String
    pub parse_message : String → Result CommunicationMessage
    pub sign_data : String → String
    pub verify_data : String → String → String → Bool
    pub is_after : String → String → Bool
