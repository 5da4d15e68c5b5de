-- ===== src/Kyc.antt =====
-- apps/server/src/modules/stellar-kyc: attestations of a verified wallet are signed, submitted to
-- the registry's contract and remembered by the service.
pub mod Records
pub mod Net
pub mod Signer
pub mod Contract
pub mod Transaction
pub mod Routes
