-- ===== src/Web/Tabs/Parts.antt =====
-- Each row of a list stands in exactly one of its tabs, and the dashboards' numbers add up.
use mathlib.Core.List.{Perm, perm_middle}
use mathlib.Core.List.Perm
use stprivy.Common.{
  suc, ◌+◌, ◌≡◌, refl, ap, ◌∙◌, Bool, true, false, not, List, [], ◌∷◌, ◌++◌, arith,
}
use stprivy.Common.Tests.{length}
use stprivy.Common.Lists.{filter, keep}
use stprivy.Domain.{Credential, CredentialStatus, Proof, ProofStatus, ProofVerification, Issuer}
use stprivy.Request.{is_completed}
use stprivy.Credential.{is_revoked_status}
use stprivy.Proof.Service.{is_active}
use stprivy.Web.Generate.{is_moving}
use stprivy.Web.Tabs.{
  is_expired_status, is_failed, credential_tabs, proof_tabs, issuer_tabs, issuer_counts,
  verifier_counts, home_counts,
}

-- exactly one of three tests holds
data One : Bool → Bool → Bool → Type 0 where
  first : One true false false
  second : One false true false
  third : One false false true

module _ {A : Type 0} where
  step-Perm :
      (x : A) (fs gs hs xs : List A) {b c d : Bool}
      → One b c d
      → Perm (fs ++ (gs ++ hs)) xs
      → Perm (keep b x fs ++ (keep c x gs ++ keep d x hs)) (x ∷ xs)
  step-Perm x fs gs hs xs first same = Perm.cons x same
  step-Perm x fs gs hs xs second same = Perm.trans (perm_middle fs (gs ++ hs)) (Perm.cons x same)
  step-Perm x fs gs hs xs third same =
      Perm.trans (Perm.trans (Perm.append_left fs (perm_middle gs hs)) (perm_middle fs (gs ++ hs)))
        (Perm.cons x same)

  split-Perm :
      (f g h : A → Bool)
      → ((x : A) → One (f x) (g x) (h x))
      → (xs : List A) → Perm (filter f xs ++ (filter g xs ++ filter h xs)) xs
  split-Perm f g h one [] = Perm.rfl
  split-Perm f g h one (x ∷ xs) =
      step-Perm x (filter f xs) (filter g xs) (filter h xs) xs (one x) (split-Perm f g h one xs)

  step-length :
      (x : A) (fs gs hs : List A) {b c d : Bool}
      → One b c d
      → length (keep b x fs) + (length (keep c x gs) + length (keep d x hs))
        ≡ suc (length fs + (length gs + length hs))
  step-length x fs gs hs first = omega arith
  step-length x fs gs hs second = omega arith
  step-length x fs gs hs third = omega arith

  split-length :
      (f g h : A → Bool)
      → ((x : A) → One (f x) (g x) (h x))
      → (xs : List A)
      → length (filter f xs) + (length (filter g xs) + length (filter h xs)) ≡ length xs
  split-length f g h one [] = omega arith
  split-length f g h one (x ∷ xs) =
      step-length x (filter f xs) (filter g xs) (filter h xs) (one x)
      ∙ ap suc (split-length f g h one xs)

  half-Perm :
      (b : Bool) (x : A) (fs gs xs : List A)
      → Perm (fs ++ gs) xs
      → Perm (keep b x fs ++ keep (not b) x gs) (x ∷ xs)
  half-Perm true x fs gs xs same = Perm.cons x same
  half-Perm false x fs gs xs same = Perm.trans (perm_middle fs gs) (Perm.cons x same)

  halves-Perm : (f : A → Bool) (xs : List A) → Perm (filter f xs ++ filter (λ x. not (f x)) xs) xs
  halves-Perm f [] = Perm.rfl
  halves-Perm f (x ∷ xs) =
      half-Perm (f x) x (filter f xs) (filter (λ y. not (f y)) xs) xs (halves-Perm f xs)

  half-length :
      (b : Bool) (x : A) (fs gs : List A)
      → length (keep b x fs) + length (keep (not b) x gs) ≡ suc (length fs + length gs)
  half-length true x fs gs = omega arith
  half-length false x fs gs = omega arith

  halves-length :
      (f : A → Bool) (xs : List A)
      → length (filter f xs) + length (filter (λ x. not (f x)) xs) ≡ length xs
  halves-length f [] = omega arith
  halves-length f (x ∷ xs) =
      half-length (f x) x (filter f xs) (filter (λ y. not (f y)) xs) ∙ ap suc (halves-length f xs)

credential-One :
    (s : CredentialStatus) → One (is_active s) (is_revoked_status s) (is_expired_status s)
credential-One CredentialStatus.active = first
credential-One CredentialStatus.revoked = second
credential-One CredentialStatus.expired = third

proof-One : (s : ProofStatus) → One (is_completed s) (is_moving s) (is_failed s)
proof-One ProofStatus.completed = first
proof-One ProofStatus.pending = second
proof-One ProofStatus.generating = second
proof-One ProofStatus.failed = third

-- On each of the pages, every row of the list stands in one tab and in no other: the tabs, one
-- after the other, are the list in another order.
pub tabs-Perm :
    (credentials : List Credential) (proofs : List Proof) (issuers : List Issuer)
    → let c = credential_tabs credentials in
      let x = proof_tabs proofs in
      let i = issuer_tabs issuers in
      Perm (c.active ++ (c.revoked ++ c.expired)) credentials
      × Perm (x.completed ++ (x.pending ++ x.failed)) proofs
      × Perm (i.active ++ i.inactive) issuers
unfolding credential_tabs proof_tabs issuer_tabs
tabs-Perm credentials proofs issuers = (
  split-Perm (λ c. is_active c.status) (λ c. is_revoked_status c.status)
      (λ c. is_expired_status c.status) (λ c. credential-One c.status) credentials,
  split-Perm (λ x. is_completed x.status) (λ x. is_moving x.status) (λ x. is_failed x.status)
      (λ x. proof-One x.status) proofs,
  halves-Perm (λ i. i.active) issuers,
)

-- The numbers of the dashboards agree: a total is the sum of its parts, and the active credentials
-- and the completed proofs are as many as their tabs hold.
pub counts_add_up :
    (credentials : List Credential) (proofs : List Proof) (verifications : List ProofVerification)
    → let i = issuer_counts credentials in
      let v = verifier_counts verifications in
      let h = home_counts credentials proofs in
      (i.active + (i.revoked + i.expired) ≡ i.total)
      × (v.passed + v.failed ≡ v.total)
      × (h.active_credentials ≡ length (credential_tabs credentials).active)
      × (h.completed_proofs ≡ length (proof_tabs proofs).completed)
unfolding issuer_counts verifier_counts home_counts credential_tabs proof_tabs
counts_add_up credentials proofs verifications = (
  split-length (λ c. is_active c.status) (λ c. is_revoked_status c.status)
      (λ c. is_expired_status c.status) (λ c. credential-One c.status) credentials,
  halves-length (λ v. v.result) verifications,
  refl,
  refl,
)
