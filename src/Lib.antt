-- ===== src/Lib.antt =====
-- Verification of the guard service: how guards agree on the transactions of the bridge, and how a
-- transaction lives in the database from its approval to its confirmation.
--
-- An event of a source chain is confirmed and verified before a payment is made for it
-- (event/), and an arbitrary order is paid likewise (arbitrary/).
-- Guards take turns by the clock (utils/GuardTurn.ts). The guard in turn proposes a transaction,
-- the others verify and sign it (agreement/TxAgreement.ts), and an approved transaction enters the
-- database (db/DatabaseHandler.ts, by the queries of db/DatabaseAction.ts). The processor
-- (transaction/TransactionProcessor.ts) then has it signed and submitted, and follows it until it
-- is confirmed or found invalid. Paths are below src/.
--
-- Constants models the statuses of utils/constants.ts. Database.Entities and Database.Repository
-- are the rows and the tables: a TypeORM repository is a parameter, given by the laws of its
-- queries, and rows are counted, since the store may return them in any order. A write that fails
-- is an error and changes nothing. Database.Actions has a function for each query, and
-- Database.Handler those of the handler: `insert_tx` is `insertTx`. Transactions has a function
-- for each handler of the processor, `process_tx` being one round of the loop of
-- `processTransactions`. Agreement and Agreement.Approve have those of TxAgreement: the maps of the
-- class are the record `Agreement`. Turn has the three functions of the clock. Function names are
-- those of the source in snake case. An exception is the value `err`, and what was written before
-- it stays; the logs are left out.
--
-- A call of `insertTx`, a round of the processor and a message of the agreement are one step each:
-- interleavings of a step with another at an `await` are not modelled. A theorem about a round of
-- the processor supposes that the row still has the status with which it was read. Chains, the
-- JSON form of a transaction, ECDSA, sends and the time are parameters. Requests are verified by an
-- interface, `Agreement.Verifier`, which `Verification.Requests.request_verifier` fills with the
-- functions of verification/RequestVerifier.ts: Verification has them, and takes the verification
-- of events and orders against the chains as arguments.
-- Order has the functions of event/EventOrder.ts: amounts are integers, as the source's are, and
-- fees, shares and counts are naturals; a division by 0 raises. Event and Event.Creation have those
-- of event/EventBoxes.ts and the creation and verification of a transaction, Event.Processor the
-- jobs of event/EventProcessor.ts, and Arbitrary those of arbitrary/ArbitraryProcessor.ts. What the
-- chains, the extractor of the watchers' data, the token map and the configuration give is the
-- record `Event.Bridge`, in which the time of each look at the clock is an argument of its own.
-- Verification.Chains puts them in place of the arguments of the request verifier. ColdStorage has
-- the functions of coldStorage/ColdStorage.ts, with `getWaitingEventsRequiredTokens`, and
-- ColdStorage.Verifier the verification of a cold storage transaction. Synchronization has those of
-- synchronization/EventSynchronization.ts, whose members are the record `Synchronization`, with the
-- counting of responses in Synchronization.Responses.
-- Reprocess has the functions of reprocess/EventReprocess.ts.
-- MultiSig has the functions of guard/multisig: the handler's members are the record `MultiSig`, and
-- what the ledger library gives is the record `Sigma`. MultiSig.Commitments has the conversions of
-- commitments, MultiSig.Queue the queue, MultiSig.Signing the bags of hints and the signatures, and
-- MultiSig.Messages the messages; MultiSig.Calls runs them in any order. Whoever finds the semaphore
-- held waits: a step then changes nothing. MultiSig.Directory is what the handler promises about the
-- ids of guards.
-- Communication has the channels and the queue of communication/Dialer.ts: libp2p is the record
-- `Network`.
-- Service runs the calls of the agreement and these jobs, as jobs/runProcessors.ts starts them, in
-- any order.
-- Loops run over lists, and no fuel is used.
--
-- Not modelled: notifications, that a reward request which comes too early queues its event for
-- synchronization, messages whose payload is not of the message's type, the revenue and history
-- queries of the database, and what only calls libraries (the node of communication/, handlers/,
-- jobs/, api/, configs/).
mod Base
mod Constants
pub mod Arbitrary
pub mod ColdStorage
pub mod Event
pub mod Synchronization
pub mod Reprocess
pub mod Service
pub mod MultiSig
pub mod Communication
pub mod Order
pub mod Turn
pub mod Agreement
pub mod Database
pub mod Transactions
pub mod Verification
mod Tests
