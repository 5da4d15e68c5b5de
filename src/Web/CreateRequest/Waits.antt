-- ===== src/Web/CreateRequest/Waits.antt =====
-- A request that a verifier makes on the page waits in the subjects' inboxes until its time is out.
use stprivy.Common.{
  ℕ, ◌<◌, ◌+◌, ◌*◌, ◌≡◌, refl, sym, String, true, none, some, ◌==◌, arith, eq_iff, eq_refl, inl,
  inr,
}
use mathlib.Core.List.{Memᴰ}
use stprivy.Common.Tests.{Bool-cases, lt→ltb, leb}
use stprivy.Common.Js.{Js}
use stprivy.Common.Exec.{ok}
use stprivy.Domain.{Did, ProofRequest, RequestStatus}
use stprivy.Domain.Db.{Prisma, Db}
use stprivy.Domain.Queries.{Queries}
use stprivy.Request.{create}
use stprivy.Request.Dto.{is_circuit, Validators, CreateBody, optional, valid_create, create_route}
use stprivy.Proof.Lists.{pending_requests, rows_for-Memᴰ, is_waiting}
use stprivy.Web.CreateRequest.{
  Zod, FormValues, create_schema, create_body, or_undefined, submit_create,
}

module _ (js : Js) (z : Zod) (v : Validators js) where
  described : (purpose : String) → leb 5 (z.length purpose) ≡ true → v.is_not_empty purpose ≡ true
  described purpose h = elim (Bool-cases (purpose == "")) [
    | inl hit ↦
        let bare : z.length purpose ≡ 0 = rw ((eq_iff purpose "").0 hit) z.length-empty in
        absurd (ground (arith, bare, h))
    | inr miss ↦ rw (v.is_not_empty_lem, miss) refl
  ]

  -- what the page sends passes the server's validation, but for a callback that `IsUrl` refuses
  valid_create-submit :
      (now : ℕ) (values : FormValues) (body : CreateBody)
      → submit_create js z now values ≡ some body
      → optional js v v.is_url (or_undefined values.callback_url) ≡ true
      → (create_body js now values ≡ body) × (valid_create js v body ≡ true)
  unfolding submit_create create_schema valid_create create_body
  valid_create-submit now values body h url = elim (Bool-cases (create_schema z values)) [
    | inl hit ↦
        let same : create_body js now values ≡ body = ground (arith, hit, h) in
        let circuit : is_circuit values.circuit_id ≡ true = ground (arith, hit) in
        let purpose : leb 5 (z.length values.purpose) ≡ true = ground (arith, hit) in
        (
          same,
          rw⁻¹ same
              (rw (circuit, described values.purpose purpose, url, v.is_date_string-iso) refl),
        )
    | inr miss ↦ absurd (ground (arith, miss, h))
  ]

  module _ (p : Prisma) (q : Queries p) (id : String) (now : ℕ) (verifier : String)
      (values : FormValues) (did : Did) (s : Db p)
      (identity : p.dids.find verifier s.dids ≡ some did)
      (fresh : p.requests.find id s.requests ≡ none) where
    abbrev deadline : ℕ
    deadline = now + values.expires_in_minutes * 60000

    abbrev pub made : ProofRequest
    made = record {
      id = id;
      verifier_did = did.id;
      subject_did = none;
      circuit_id = values.circuit_id;
      purpose = values.purpose;
      callback_url = or_undefined values.callback_url;
      expires_at = deadline;
      status = RequestStatus.pending;
      proof_id = none;
      created_at = now;
    }

    abbrev pub after_create : Db p
    after_create = record s { requests = p.requests.put id made s.requests }

    create_route_lem :
        (body : CreateBody)
        → submit_create js z now values ≡ some body
        → optional js v v.is_url (or_undefined values.callback_url) ≡ true
        → create_route js v p id now verifier body s ≡ (ok made, after_create)
    create_route_lem body h url =
        let (same, valid) = valid_create-submit now values body h url in
        unfold create_route create create_body in
        (rw (valid, identity, sym same, js.parse_date-iso, identity, p.requests.create_lem, fresh)
          refl)

    -- A verifier with a DID who submits the page's form, with no callback or with one that the
    -- server's `IsUrl` takes, is answered with a pending request; until the minutes of the form
    -- are over it stands in the inbox of every user who has a DID.
    pub created_waits :
        (body : CreateBody) (subject : String) (own : Did) (now' : ℕ)
        → submit_create js z now values ≡ some body
        → optional js v v.is_url (or_undefined values.callback_url) ≡ true
        → p.dids.find subject s.dids ≡ some own
        → now' < deadline
        → let (answer, s') = create_route js v p id now verifier body s in
          (answer ≡ ok made) × Memᴰ made (pending_requests p q now' subject s')
    unfolding pending_requests
    created_waits body subject own now' h url theirs in_time = rw (create_route_lem body h url) (
      refl,
      (rows_for-Memᴰ (λ d. q.requests.find_many (is_waiting now' d.id) after_create.requests)
            (p.dids.find subject s.dids) made).1
          (
            own,
            theirs,
            (q.requests.find_many-Memᴰ (is_waiting now' own.id) made after_create.requests).1 (
              (id, rw (p.requests.find-put, eq_refl id) refl),
              rw (lt→ltb now' deadline in_time) refl,
            ),
          ),
    )
