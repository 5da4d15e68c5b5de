-- ===== src/Web/Tabs.antt =====
-- The lists of the pages under apps/web/src/app (credentials, proofs, issuer/credentials,
-- admin/issuers) as they are split into tabs, and the numbers that the dashboards show of them.
pub mod Parts
pub mod Manage
use stprivy.Common.{ℕ, String, Bool, true, false, not, Option, none, some, List, [], ◌∷◌, ◌==◌}
use stprivy.Common.Tests.{length, is_some, if◌then◌else◌}
use stprivy.Common.Lists.{filter}
use stprivy.Domain.{Credential, CredentialStatus, Proof, ProofStatus, ProofVerification, Issuer}
use stprivy.Request.{is_completed}
use stprivy.Credential.{is_revoked_status}
use stprivy.Proof.Service.{is_active}
use stprivy.Web.Generate.{is_moving}

abbrev pub is_expired_status : CredentialStatus → Bool
is_expired_status CredentialStatus.expired = true
is_expired_status _ = false

abbrev pub is_failed : ProofStatus → Bool
is_failed ProofStatus.failed = true
is_failed _ = false

pub record CredentialTabs : Type 0 where
  pub active : List Credential
  pub revoked : List Credential
  pub expired : List Credential

-- `CredentialsPage` and `ManageCredentialsPage`
unfoldable pub credential_tabs : List Credential → CredentialTabs
credential_tabs credentials = record {
  active = filter (λ c. is_active c.status) credentials;
  revoked = filter (λ c. is_revoked_status c.status) credentials;
  expired = filter (λ c. is_expired_status c.status) credentials;
}

pub record ProofTabs : Type 0 where
  pub completed : List Proof
  pub pending : List Proof
  pub failed : List Proof

-- `ProofsPage`
unfoldable pub proof_tabs : List Proof → ProofTabs
proof_tabs proofs = record {
  completed = filter (λ x. is_completed x.status) proofs;
  pending = filter (λ x. is_moving x.status) proofs;
  failed = filter (λ x. is_failed x.status) proofs;
}

pub record IssuerTabs : Type 0 where
  pub active : List Issuer
  pub inactive : List Issuer

-- `IssuerRegistryPage`
unfoldable pub issuer_tabs : List Issuer → IssuerTabs
issuer_tabs issuers = record {
  active = filter (λ i. i.active) issuers;
  inactive = filter (λ i. not i.active) issuers;
}

-- `IssuerDashboardPage`: the cards show the total, the active and the revoked ones
pub record IssuerCounts : Type 0 where
  pub total : ℕ
  pub active : ℕ
  pub revoked : ℕ
  pub expired : ℕ

unfoldable pub issuer_counts : List Credential → IssuerCounts
issuer_counts credentials = record {
  total = length credentials;
  active = length (filter (λ c. is_active c.status) credentials);
  revoked = length (filter (λ c. is_revoked_status c.status) credentials);
  expired = length (filter (λ c. is_expired_status c.status) credentials);
}

-- `VerifierDashboardPage`
pub record VerifierCounts : Type 0 where
  pub total : ℕ
  pub passed : ℕ
  pub failed : ℕ

unfoldable pub verifier_counts : List ProofVerification → VerifierCounts
verifier_counts verifications = record {
  total = length verifications;
  passed = length (filter (λ v. v.result) verifications);
  failed = length (filter (λ v. not v.result) verifications);
}

-- `DashboardPage`
pub record HomeCounts : Type 0 where
  pub active_credentials : ℕ
  pub completed_proofs : ℕ

unfoldable pub home_counts : List Credential → List Proof → HomeCounts
home_counts credentials proofs = record {
  active_credentials = length (filter (λ c. is_active c.status) credentials);
  completed_proofs = length (filter (λ x. is_completed x.status) proofs);
}
