-- ===== src/Worker/Process.antt =====
-- `process` of proof-queue.worker.ts. The host's files and programs are not part of the
-- repository: what they answer during a job is a parameter.
pub mod Outcome
pub mod Cleanup
use stprivy.Common.{
  ℕ, String, Bool, true, false, not, ◌&&◌, ◌||◌, Option, none, some, List, [], ◌∷◌, ◌++◌, ◌==◌,
}
use stprivy.Common.Tests.{if◌then◌else◌}
use stprivy.Common.Exec.{
  Exec, Error, Result, ok, err, failure, throws, throw_if, raise, lift, try, pure, ◌>>=◌, ◌>>◌,
}
use stprivy.Domain.{Proof, ProofBody, ProofStatus, EventName}
use stprivy.Domain.Db.{Prisma, Db, update_proof, emit}
use stprivy.Worker.Input.{
  Claims, Checked, good, bad, Input, InputError, invalid_claim, invalid_country, unknown_circuit,
  build_input,
}

pub record Job : Type 0 where
  pub proof_id : String
  pub subject_did : String
  pub credential_id : String
  pub circuit_id : String
  pub claims : Claims

-- The programs that a job starts.
pub data Command : Type 0 where
  compile setup contribute export_key witness prove : Command

pub record Host : Type 0 where
  -- `existsSync` of the circuit's directory and of its files
  pub has_circuit : Bool
  pub has_r1cs : Bool
  pub has_wasm : Bool
  pub has_zkey : Bool
  pub has_ptau : Bool
  -- `mkdtempSync`, and the name that it makes
  pub make_dir : Result (Unit {0})
  pub fresh_dir : String
  -- `writeFileSync` of the input, and `execAsync`: an error is thrown
  pub write : Input → Result (Unit {0})
  pub run : Command → Result (Unit {0})
  -- `proof.json` and `public.json`, read and parsed
  pub read_artifacts : Result (ProofBody × List String)
  -- `rmSync` of the work directory, which can throw and then leaves it there
  pub remove : Result (Unit {0})
  -- `text.toUpperCase()`
  pub upper : List ℕ → List ℕ

-- `KNOWN_CIRCUITS`
unfoldable pub is_known : String → Bool
is_known id =
    id == "age-proof"
    || id == "residency-proof"
    || id == "accredited-investor"
    || id == "sanctions-check"

abbrev pub unknown_type : Error
unknown_type = throws failure "Unknown circuit type"

abbrev pub no_circuit : Error
no_circuit = throws failure "Circuit directory not found"

abbrev pub no_ptau : Error
no_ptau = throws failure "Powers of Tau file not found"

abbrev pub input_error : InputError → Error
input_error (invalid_claim field) = throws failure "Invalid claim"
input_error (invalid_country given) = throws failure "Invalid country code"
input_error (unknown_circuit id) = throws failure "Unknown circuit"

abbrev pub checked : Checked Input → Result Input
checked (good input) = ok input
checked (bad e) = err (input_error e)

-- every directory but one
unfoldable pub without : String → List String → List String
without name [] = []
without name (d ∷ ds) = let rest = without name ds in if d == name then rest else d ∷ rest

-- The three updates of the proof's row.
abbrev pub mark_failed : Proof → Proof
mark_failed r = record r { status = ProofStatus.failed }

abbrev pub mark_generating : Proof → Proof
mark_generating r = record r { status = ProofStatus.generating }

abbrev pub mark_completed : (circuit_id : String) → ℕ → ProofBody × List String → Proof → Proof
mark_completed circuit_id now artifacts r = record r {
  status = ProofStatus.completed;
  artifact = some (record {
    proof = artifacts.0;
    public_inputs = artifacts.1;
    circuit = circuit_id;
    generated_at = none;
  });
  generated_at = some now;
}

module _ (p : Prisma) where
  -- The database, the temporary directories on the disk, the job's `workDir`, and the programs
  -- that it has started, the latest first.
  pub record World : Type 0 where
    pub db : Db p
    pub dirs : List String
    pub work_dir : Option String
    pub commands : List Command

  module _ {A : Type 0} where
    abbrev pub with_db : World → Result A × Db p → Result A × World
    with_db w (r, s) = (r, record w { db = s })

    abbrev pub in_db : Exec (Db p) A → Exec World A
    in_db m w = with_db w (m w.db)

  -- `failProof`
  unfoldable pub fail_proof : (proof_id : String) → Exec World Proof
  fail_proof proof_id = in_db (update_proof p proof_id mark_failed)

  module _ (host : Host) where
    abbrev exec : Command → Exec World (Unit {0})
    exec c w = (host.run c, record w { commands = c ∷ w.commands })

    abbrev made_dir : Result (Unit {0}) → Exec World (Unit {0})
    made_dir (ok x) w =
        (ok tt, record w { dirs = host.fresh_dir ∷ w.dirs; work_dir = some host.fresh_dir })
    made_dir (err e) w = (err e, w)

    make_work_dir : Exec World (Unit {0})
    make_work_dir = made_dir host.make_dir

    -- step 1, if the circuit is not compiled
    compile_circuit : Exec World (Unit {0})
    compile_circuit = if not host.has_r1cs || not host.has_wasm then exec compile else pure tt

    -- step 2, if there is no proving key
    trusted_setup : Exec World (Unit {0})
    trusted_setup =
        if host.has_zkey
        then pure tt
        else do throw_if (not host.has_ptau) no_ptau; exec setup; exec contribute; exec export_key

    -- steps 3 to 5
    run_prover : Job → Exec World (Unit {0})
    run_prover job = do
      input ← lift (checked (build_input host.upper job.circuit_id job.claims))
      lift (host.write input)
      exec witness
      exec prove

    -- step 6: the artifacts are stored with the status
    store : Job → (now : ℕ) → ProofBody × List String → Exec (Db p) (Unit {0})
    store job now artifacts = do
      update_proof p job.proof_id (mark_completed job.circuit_id now artifacts)
      emit p (record {
        name = EventName.proof_generated;
        actor_did = job.subject_did;
        subject_did = some job.subject_did;
        resource_id = job.proof_id;
        timestamp = now;
      })

    -- steps 1 to 5, up to the artifacts that are read back
    unfoldable pub generate : Job → Exec World (ProofBody × List String)
    unfolding make_work_dir compile_circuit trusted_setup run_prover
    generate job = do
      throw_if (not host.has_circuit) no_circuit
      make_work_dir
      compile_circuit
      trusted_setup
      run_prover job
      lift host.read_artifacts

    -- the body of the `try` block
    body : Job → (now : ℕ) → Exec World (Unit {0})
    unfolding store
    body job now = do
      in_db (update_proof p job.proof_id mark_generating)
      artifacts ← generate job
      in_db (store job now artifacts)

    abbrev removed : String → Result (Unit {0}) → Exec World (Unit {0})
    removed d (ok x) w = (ok tt, record w { dirs = without d w.dirs })
    removed d (err e) w = (err e, w)

    -- the `finally` block; the job has made its `workDir`, which therefore exists
    clean_up : Exec World (Unit {0})
    clean_up w = elim w.work_dir [ none ↦ (ok tt, w) | some d ↦ removed d host.remove w ]

    -- what the block throws takes the place of what was to be returned or thrown
    abbrev replaced : Result (Unit {0}) → Result (Unit {0}) × World → Result (Unit {0}) × World
    replaced r (ok x, w) = (r, w)
    replaced r (err e, w) = (err e, w)

    abbrev finally : Result (Unit {0}) × World → Result (Unit {0}) × World
    finally (r, w) = replaced r (clean_up w)

    -- `process`; `workDir` is undefined when the job starts
    unfoldable pub process : Job → (now : ℕ) → Exec World (Unit {0})
    unfolding body clean_up
    process job now w =
        let start = record w { work_dir = none } in
        if is_known job.circuit_id
        then finally (try (body job now) (λ e. do fail_proof job.proof_id; raise e) start)
        else (do fail_proof job.proof_id; raise unknown_type) start
