-- ===== src/Proof.antt =====
-- apps/server/src/modules/proofs/proof.service.ts: proofs are generated (a mock artifact) and
-- verified, with a best-effort call of the contract. The encoding for the contract is `Encode`.
pub mod Encode
pub mod Service
pub mod Controller
pub mod Lists
