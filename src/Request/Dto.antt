-- ===== src/Request/Dto.antt =====
-- The bodies of proof.controller.ts's routes and their validation, which runs before the handler.
-- The decorators of class-validator and the pipe are not part of the repository: they are
-- parameters, with what the documentation says of `IsNotEmpty` and of `IsDateString`.
use stprivy.Common.{ℕ, ◌≡◌, String, Bool, true, not, ◌&&◌, ◌||◌, Option, none, some, ◌==◌}
use stprivy.Common.Js.{Js}
use stprivy.Common.Exec.{
  Exec, Error, bad_request, failure, throws, require, throw_if, gets, ◌>>=◌, ◌>>◌,
}
use stprivy.Domain.{Proof, ProofVerification, ProofRequest}
use stprivy.Domain.Db.{Prisma, Db}
use stprivy.Request.{Decision, no_did, create, respond}
use stprivy.Proof.Service.{Contract}
use stprivy.Proof.Controller.{generate, verify}

-- the decorators that the bodies carry, and the text of the pipe's exception
pub record Validators (js : Js) : Type 0 where
  pub is_not_empty : String → Bool
  pub is_not_empty_lem : (text : String) → is_not_empty text ≡ not (text == "")
  pub is_url : String → Bool
  pub is_date_string : String → Bool
  pub is_date_string-iso : (t : ℕ) → is_date_string (js.iso t) ≡ true
  pub refusal : String

-- `GenerateProofDto`
pub record GenerateBody : Type 0 where
  pub credential_id : String
  pub circuit_id : String

-- `CreateProofRequestDto`
pub record CreateBody : Type 0 where
  pub circuit_id : String
  pub purpose : String
  pub callback_url : Option String
  pub expires_at : String

-- `RespondToRequestDto`
pub record RespondBody : Type 0 where
  pub proof_id : String
  pub decision : Decision

-- `@IsEnum(CIRCUIT_IDS)`
abbrev pub is_circuit : String → Bool
is_circuit circuit =
    circuit == "age-proof"
    || (circuit == "residency-proof"
        || (circuit == "accredited-investor" || circuit == "sanctions-check"))

-- `new Date(dto.expiresAt)` of an invalid date is refused by the database
abbrev pub invalid_date : Error
invalid_date = throws failure "Invalid value for argument `expiresAt`"

module _ (js : Js) (v : Validators js) where
  abbrev pub invalid : Error
  invalid = throws bad_request v.refusal

  abbrev pub optional : (String → Bool) → Option String → Bool
  optional test none = true
  optional test (some text) = test text

  unfoldable pub valid_generate : GenerateBody → Bool
  valid_generate body = v.is_not_empty body.credential_id && is_circuit body.circuit_id

  unfoldable pub valid_create : CreateBody → Bool
  valid_create body =
      is_circuit body.circuit_id
      && (v.is_not_empty body.purpose
          && (optional v.is_url body.callback_url && v.is_date_string body.expires_at))

  unfoldable pub valid_respond : RespondBody → Bool
  valid_respond body = v.is_not_empty body.proof_id

  module _ (p : Prisma) where
    -- `POST /proofs/generate`
    unfoldable pub generate_route :
        (id : String) (now : ℕ) (user_id : String) → GenerateBody → Exec (Db p) Proof
    generate_route id now user_id body = do
      throw_if (not (valid_generate body)) invalid
      generate p js id now user_id body.credential_id body.circuit_id

    -- `POST /proofs/verify`
    unfoldable pub verify_route :
        Contract
        → (id : String) (now : ℕ) (user_id proof_id : String) → Exec (Db p) ProofVerification
    verify_route contract id now user_id proof_id = do
      throw_if (not (v.is_not_empty proof_id)) invalid
      verify p js contract id now user_id proof_id

    -- `POST /proofs/requests`; the DID is looked for before the date is read
    unfoldable pub create_route :
        (id : String) (now : ℕ) (user_id : String) → CreateBody → Exec (Db p) ProofRequest
    create_route id now user_id body = do
      throw_if (not (valid_create body)) invalid
      did ← gets (λ s. p.dids.find user_id s.dids)
      require no_did did
      expires_at ← require invalid_date (js.parse_date body.expires_at)
      create p id now user_id (record {
        circuit_id = body.circuit_id;
        purpose = body.purpose;
        callback_url = body.callback_url;
        expires_at = expires_at;
      })

    -- `POST /proofs/requests/:id/respond`
    unfoldable pub respond_route :
        (now : ℕ) (id user_id : String) → RespondBody → Exec (Db p) ProofRequest
    respond_route now id user_id body = do
      throw_if (not (valid_respond body)) invalid
      respond p now id user_id body.proof_id body.decision
