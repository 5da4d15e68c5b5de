-- ===== src/Lib.antt =====
-- Verification library of STPrivy's server (apps/server): zero-knowledge KYC proofs over Stellar.
-- A subject logs in with a signed challenge, holds credentials, generates proofs of claims, and
-- answers the proof requests of verifiers; the server verifies proofs and calls the contracts. The
-- pages of the web application (apps/web) call the server, and are modelled against it.
--
-- Parts and files:
--   * Domain, Domain/Db: the rows and enumerations of apps/server/prisma/schema.prisma and
--     apps/server/src/events/domain-events.ts. A row that the database fills in by itself (an id,
--     a time) is an argument of the operation that creates it. `Prisma` is the client: one `Table`
--     for each model (Common/Table), with the documented behaviour of findUnique, create and
--     update as laws; the hash of a credential is a second unique column. `Db` is the state: the contents of the tables and the events that were
--     emitted. Domain/Queries: the queries of many rows, as parameters with findMany's documented
--     behaviour (Common/Listing), the order of the rows left open.
--   * Did: apps/server/src/modules/did/did.service.ts. `create_did_of` and `resolve_did` are
--     createDID and resolveDID; the column of DIDs beside the one of users is a parameter.
--   * Request: apps/server/src/modules/proofs/proof.controller.ts. `create`, `get` and `respond`
--     are createRequest, getRequest and respondToRequest. Request/Lifecycle and Request/Justified
--     follow the requests over any sequence of the calls that write: `Call` is one of them, and
--     so does Request/Keyed. Request/Dto: the bodies of the routes and their validation, with
--     class-validator's decorators as parameters.
--   * Proof/Encode and Proof/Service: proof.service.ts in the same directory. `generate_proof` and
--     `verify_proof` are generateProof and verifyProof, over the same tables as the requests;
--     `encode_groth16_proof` and `encode_public_inputs` make the bytes for the contract. What the
--     contract answers is a parameter. Proof/Controller: getOne, generate and verify of
--     proof.controller.ts; Proof/Lists: its lists.
--   * Worker: proof-queue.worker.ts in the same directory. `build_input` is buildInput with its
--     helpers, `process` is the job. What the host's files and programs answer is a parameter,
--     and so is whether the directory of a job can be removed.
--   * Retry and Soroban: apps/server/src/modules/soroban/soroban.service.ts. `with_retry` is
--     withRetry, which apps/server/src/modules/stellar/stellar.service.ts has as a loop of its
--     own; `invoke_contract` and `simulate_contract` run over it. The RPC server is a parameter.
--   * Stellar: apps/server/src/modules/stellar/stellar.service.ts. `build_and_submit_tx` is
--     buildAndSubmitTx over the same loop, with `is_retryable_error` for isRetryableError. Horizon
--     is a parameter.
--   * Registry: apps/server/src/modules/issuers/issuer.service.ts, over the calls of `Soroban`.
--     Registry/Issuers: `deactivate` of issuer.controller.ts beside it, and `upsert_issuer`, the
--     upsert of the platform's issuer that the credentials' controller and Veriff's service share.
--   * Auth: apps/server/src/modules/auth/auth.service.ts. Redis, the table of users, the Stellar
--     SDK, SHA-256 and the JWT library are parameters. Auth/Guards: the guards of the JWT and of
--     the roles under auth/guards. Auth/Routes: auth.controller.ts with its bodies.
--   * Credential: apps/server/src/modules/credentials/credential.service.ts. `issue_credential`,
--     `get_credential`, `verify_credential` and `revoke_credential` are the methods of these
--     names, over the same tables as the proofs. Keys, signatures, SHA-256, JSON.stringify and the
--     answers of the registries on the chain are parameters; Credential/Texts has the two string
--     functions with which ids and addresses are taken apart. Credential/Controller: `self_issue`
--     and `revoke` of credential.controller.ts, which calls the services of DIDs, issuers and
--     credentials; Credential/Dto has the validation of its body, Credential/Lists its lists.
--   * Veriff: apps/server/src/modules/veriff/veriff.service.ts. `open_session`, `get_session` and
--     `handle_webhook` are createSession, getSession and handleWebhook; `calculate_age` is
--     calculateAge. HMAC, the calendar and what Veriff answers are parameters.
--   * Kyc: apps/server/src/modules/stellar-kyc. Kyc/Signer is the signer and the attestations,
--     Kyc/Contract contract/kyc-contract.service.ts with its records in memory (Kyc/Records), and
--     Kyc/Transaction the calls of transactions/transaction.service.ts. The SDK and the RPC server
--     are a parameter (Kyc/Net). Kyc/Contract/History is the specification by the history of
--     calls. Kyc/Routes is stellar-kyc.controller.ts with the validation of its bodies: `handler`
--     is the method of a route, `route` the pipe and the method.
--   * Web: the session of the web application, from apps/web/src: context/auth-context.tsx,
--     lib/api.ts and components/layout/protected-layout.tsx. A tab of the browser is the state;
--     `restore` is the provider's effect, `request` the call of the server. Web/VeriffFlow: the
--     component of this name in app/kyc/form/page.tsx, with its timers and the calls that have no
--     answer yet.
--   * The pages under apps/web/src/app, with the state of their components and what they send:
--     Web/Respond (kyc/respond), Web/Generate (kyc/generate, with hooks/use-proofs.ts),
--     Web/ProofDetails (proofs/[id]), Web/Profile (profile),
--     Web/CreateRequest (verifier/create-request), Web/Issue (the forms of kyc/form and of
--     issuer/issue), Web/Tabs (the tabs and the numbers of the lists and dashboards; Web/Tabs/Manage
--     is the issuer's list) and Web/Sidebar (components/layout/sidebar.tsx and the layouts). zod's
--     tests of texts are parameters. A card of Web/Respond goes through the steps of `Turn`.
--   * Web/Wallet: hooks/use-wallet.ts, `login` of hooks/use-auth.ts and
--     components/wallet-connect.tsx. The browser's extensions are a parameter.
--   * Admin: apps/server/src/modules/admin/admin.controller.ts, and of the pages app/status and
--     app/admin/audit of apps/web/src the state, the filter and the export.
--   * Flow: the services one after the other, from a credential to an approved request.
--   * Indexer: apps/server/src/modules/soroban/soroban-event-indexer.service.ts. `poll` is the
--     method of this name, `schedule_polls` the sequence of polls that the timer makes.
--   * Examples: concrete runs, with association lists as tables.
-- A handler is a function from the state to a result and the next state (Common/Exec), so that
-- what was written before an exception stays written.
--
-- Bounds and fuel: the retry loop recurses on the list of its delays and polling on the 20 polls,
-- as the code counts them. The digits of a number n are computed with n rounds of fuel, which is
-- enough since a round divides by 16 (Proof/Encode/Hex). A 32-bit integer is its bit pattern,
-- modulo 2^32. The wait for a transaction in kyc-contract.service.ts has no bound in the code: it
-- runs on a number of polls, and ends with any number that is above the poll at which the server
-- knows the transaction (Kyc/Contract/Wait).
--
-- Not modelled: logging, the order of lists, metadata of events, fields of JSON claims beyond age,
-- country and accredited (an age is a natural number, in the forms too), a date of birth that does
-- not parse, malformed keys at which the SDK throws, the query of the audit log, the rendering of
-- the pages and the pages that only render (the landing page, the documentation), the
-- contracts and the circuits.
pub mod Common
pub mod Domain
pub mod Did
pub mod Request
pub mod Proof
pub mod Worker
pub mod Retry
pub mod Soroban
pub mod Stellar
pub mod Registry
pub mod Auth
pub mod Credential
pub mod Indexer
pub mod Kyc
pub mod Flow
pub mod Veriff
pub mod Web
pub mod Admin
pub mod Examples
