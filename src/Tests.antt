-- ===== src/Tests.antt =====
-- Tests: a database of lists, some data, and a concrete input for each theorem of a component.
mod Tables
mod Data
mod Transactions
mod Agreement
mod Database
mod Turn
mod Verification
mod Order
mod Event
mod Arbitrary
mod ColdStorage
mod Synchronization
mod Service
mod Reprocess
mod MultiSig
mod Communication
