-- ===== src/Worker/Process/Outcome.antt =====
-- How a job ends: the proof's row, the temporary directories and the programs.
use stprivy.Common.{ℕ, String, Option, none, some, List, ◌≡◌, ◌⊎◌, inl, inr, refl, arith, eq_refl}
use stprivy.Common.Tests.{Bool-cases}
use stprivy.Common.Exec.{Result, Error, ok, err, recover, resume, raise, ◌>>◌}
use stprivy.Domain.{Proof, ProofBody}
use stprivy.Domain.Db.{Prisma}
use stprivy.Worker.Process.{
  mark_failed, mark_generating, mark_completed, Job, Host, World, is_known, fail_proof, generate,
  body, store, process, clean_up, replaced, finally, in_db,
}

module _ (p : Prisma) (host : Host) (job : Job) (now : ℕ) where
  -- The steps that run programs leave the database alone.
  generate-db : (w : World p) → (generate p host job w).1.db ≡ w.db
  unfolding generate
  generate-db w = ground arith

  -- What the row is when the `try` and the `catch` are over, by how they end.
  Stored : Result (Unit {0}) → Proof → Option Proof → Type 0
  Stored (ok x) old found =
      (a : ProofBody × List String) × (host.read_artifacts ≡ ok a)
      × (found ≡ some (mark_completed job.circuit_id now a old))
  Stored (err e) old found = found ≡ some (mark_failed old)

  -- The proof's row is complete, with the artifacts that the programs made, if the job returned. If
  -- it threw, the row is failed, with all else as it was, unless what it threw is that its
  -- directory could not be removed: then the row can be complete too.
  abbrev pub Settled : Result (Unit {0}) → Proof → Option Proof → Type 0
  Settled (ok x) old found =
      (a : ProofBody × List String) × (host.read_artifacts ≡ ok a)
      × (found ≡ some (mark_completed job.circuit_id now a old))
  Settled (err e) old found =
      (found ≡ some (mark_failed old))
      ⊎ ((host.remove ≡ err e)
          × ((a : ProofBody × List String) × (host.read_artifacts ≡ ok a)
              × (found ≡ some (mark_completed job.circuit_id now a old))))

  StoredRun : Proof → Result (Unit {0}) × World p → Type 0
  unfolding Stored
  StoredRun old (r, w) = Stored r old (p.proofs.find job.proof_id w.db.proofs)

  abbrev SettledRun : Proof → Result (Unit {0}) × World p → Type 0
  SettledRun old (r, w) = Settled r old (p.proofs.find job.proof_id w.db.proofs)

  -- the job from the artifacts on, with its `catch`
  rest : Result (ProofBody × List String) × World p → Result (Unit {0}) × World p
  rest x =
      recover (resume x (λ a. in_db p (store p host job now a)))
        (λ e. do fail_proof p job.proof_id; raise e)

  replaced-Settled :
      (r : Result (Unit {0})) (x : Result (Unit {0}) × World p) (old : Proof)
      → StoredRun old (r, x.1)
      → ((e : Error) → x.0 ≡ err e → host.remove ≡ err e)
      → SettledRun old (replaced p host r x)
  unfolding StoredRun
  replaced-Settled (ok y) (ok u, w) old h thrown = h
  replaced-Settled (err x) (ok u, w) old h thrown = inl h
  replaced-Settled (ok y) (err e, w) old h thrown = inr (thrown e refl, h)
  replaced-Settled (err x) (err e, w) old h thrown = inl h

  clean_up-db : (w : World p) → (clean_up p host w).1.db ≡ w.db
  unfolding clean_up
  clean_up-db w = ground arith

  clean_up-thrown : (w : World p) (e : Error) → (clean_up p host w).0 ≡ err e → host.remove ≡ err e
  unfolding clean_up
  clean_up-thrown w e h = ground (arith, h)

  finally-Settled :
      (x : Result (Unit {0}) × World p) (old : Proof)
      → StoredRun old x
      → SettledRun old (finally p host x)
  unfolding StoredRun
  finally-Settled (r, w) old h =
      replaced-Settled r (clean_up p host w) old (rw clean_up-db h) (clean_up-thrown w)

  rest-Stored :
      (r : Result (ProofBody × List String)) (w : World p) (old : Proof)
      → p.proofs.find job.proof_id w.db.proofs ≡ some (mark_generating old)
      → ((a : ProofBody × List String) → r ≡ ok a → host.read_artifacts ≡ ok a)
      → StoredRun old (rest (r, w))
  unfolding rest store fail_proof StoredRun
  rest-Stored (ok a) w old h read =
      rw (p.proofs.update_lem job.proof_id (mark_completed job.circuit_id now a) w.db.proofs, h)
        (a, read a refl, rw (p.proofs.find-put, eq_refl job.proof_id))
  rest-Stored (err x) w old h read =
      rw (p.proofs.update_lem job.proof_id mark_failed w.db.proofs, h)
        (rw (p.proofs.find-put, eq_refl job.proof_id))

  generate-read :
      (w : World p) (a : ProofBody × List String)
      → (generate p host job w).0 ≡ ok a
      → host.read_artifacts ≡ ok a
  unfolding generate
  generate-read w a h = ground arith

  -- A job for a stored proof never leaves it in the status GENERATING: the proof is complete, with
  -- the artifacts that the programs made, if the job returned. If it threw, the proof is failed,
  -- with all else as it was, or complete where what was thrown is that the job's directory could
  -- not be removed.
  pub process-Settled :
      (w : World p) (old : Proof)
      → p.proofs.find job.proof_id w.db.proofs ≡ some old
      → Settled
          (process p host job now w).0
          old
          (p.proofs.find job.proof_id (process p host job now w).1.db.proofs)
  unfolding process body rest
  process-Settled w old h = elim (Bool-cases (is_known job.circuit_id)) [
    | inl e ↦
        let table = p.proofs.put job.proof_id (mark_generating old) w.db.proofs in
        let w1 : World p = record w { db = record w.db { proofs = table }; work_dir = none } in
        rw (e, p.proofs.update_lem job.proof_id mark_generating w.db.proofs, h)
          (finally-Settled (rest (generate p host job w1)) old (
            rest-Stored (generate p host job w1).0 (generate p host job w1).1 old
              (rw generate-db (rw (p.proofs.find-put, eq_refl job.proof_id))) (generate-read w1)))
    | inr e ↦
        unfold fail_proof in
        (rw (e, p.proofs.update_lem job.proof_id mark_failed w.db.proofs, h)
          (inl (rw (p.proofs.find-put, eq_refl job.proof_id))))
  ]
