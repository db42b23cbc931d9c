-- ===== src/Send.antt =====
-- packages/core/send: the send gate, from the draft's digest to the provider's delivery.
pub mod Row
pub mod Provider
pub mod Reconcile
pub mod Handler
pub mod Claim
pub mod Digest
pub mod Recipients
pub mod Service
pub mod Drafts
pub mod Detail
