-- ===== src/Worker/Process/Cleanup.antt =====
-- The temporary directory of a job and the programs that it starts.
use mathlib.Core.Bool.{◌&&◌}
use mathlib.Core.List.{◌++◌}
use stprivy.Common.{
  ℕ, String, none, some, List, [], ◌∷◌, ◌≡◌, ◌≢◌, ◌⊎◌, inl, inr, refl, arith, eq_iff, eq_refl,
}
use stprivy.Common.Tests.{Bool-cases, if◌then◌else◌}
use stprivy.Common.Exec.{Result, ok, err, recover, raise, ◌>>◌}
use stprivy.Common.Lists.{All}
use stprivy.Domain.{ProofBody}
use stprivy.Domain.Db.{Prisma}
use stprivy.Worker.Process.{
  Job, Host, World, Command, compile, setup, contribute, export_key, witness, prove, is_known,
  without, fail_proof, generate, body, process, clean_up, replaced, finally,
}

without_absent : (d : String) (ds : List String) → All (λ x. x ≢ d) ds → without d ds ≡ ds
unfolding without
without_absent d [] h = refl
without_absent d (x ∷ ds) (ne, h) = ground (arith, without_absent d ds h, eq_iff x d, ne)

without_first : (d : String) (ds : List String) → All (λ x. x ≢ d) ds → without d (d ∷ ds) ≡ ds
without_first d ds h = unfold without in (rw (eq_refl d) (without_absent d ds h))

module _ (p : Prisma) (host : Host) (job : Job) (now : ℕ) where
  -- What `workDir` and the disk can be after those steps.
  abbrev Dirs : List String → World p → Type 0
  Dirs ds w =
      ((w.work_dir ≡ none) × (w.dirs ≡ ds))
      ⊎ ((w.work_dir ≡ some host.fresh_dir) × (w.dirs ≡ host.fresh_dir ∷ ds))

  generate-Dirs : (w : World p) → w.work_dir ≡ none → Dirs w.dirs (generate p host job w).1
  unfolding generate
  generate-Dirs w h = ground arith

  body-Dirs : (w : World p) → w.work_dir ≡ none → Dirs w.dirs (body p host job now w).1
  unfolding body
  body-Dirs w h = grind (arith, generate-Dirs)

  clean_up-Dirs :
      (ds : List String) (w : World p)
      → All (λ d. d ≢ host.fresh_dir) ds
      → Dirs ds w
      → host.remove ≡ ok tt
      → (clean_up p host w).1.dirs ≡ ds
  unfolding clean_up
  clean_up-Dirs ds w fresh (inl (none_yet, same)) works = ground arith
  clean_up-Dirs ds w fresh (inr (made, same)) works =
      rw (made, works, same) (without_first host.fresh_dir ds fresh)

  replaced-dirs :
      (r : Result (Unit {0})) (x : Result (Unit {0}) × World p) (ds : List String)
      → x.1.dirs ≡ ds
      → (replaced p host r x).1.dirs ≡ ds
  replaced-dirs r (ok u, w) ds h = h
  replaced-dirs r (err e, w) ds h = h

  handler-Dirs :
      (ds : List String) (x : Result (Unit {0}) × World p)
      → Dirs ds x.1
      → Dirs ds (recover x (λ e. do fail_proof p job.proof_id; raise e)).1
  unfolding fail_proof
  handler-Dirs ds (ok u, w) h = h
  handler-Dirs ds (err e, w) h = ground arith

  finally-dirs :
      (ds : List String) (x : Result (Unit {0}) × World p)
      → All (λ d. d ≢ host.fresh_dir) ds
      → Dirs ds x.1
      → host.remove ≡ ok tt
      → (finally p host x).1.dirs ≡ ds
  finally-dirs ds (r, w) fresh h works =
      replaced-dirs r (clean_up p host w) ds (clean_up-Dirs ds w fresh h works)

  -- Whatever the programs and the database do, a job leaves no temporary directory behind, if its
  -- removal succeeds.
  pub dirs-process :
      (w : World p)
      → All (λ d. d ≢ host.fresh_dir) w.dirs
      → host.remove ≡ ok tt
      → (process p host job now w).1.dirs ≡ w.dirs
  unfolding process
  dirs-process w h works = elim (Bool-cases (is_known job.circuit_id)) [
    | inl e ↦
        let start : World p = record w { work_dir = none } in
        rw e (
          finally-dirs w.dirs _ h
            (handler-Dirs w.dirs (body p host job now start) (body-Dirs start refl)) works)
    | inr e ↦ rw e (unfold fail_proof in ground arith)
  ]

  -- The programs of a job that returns, the latest first.
  abbrev pub programs : List Command → List Command
  programs before =
      prove
      ∷ witness
      ∷ ((if host.has_zkey then [] else export_key ∷ contribute ∷ setup ∷ [])
          ++ (if host.has_r1cs && host.has_wasm then [] else compile ∷ [])
          ++ before)

  generate-programs :
      (w : World p) (a : ProofBody × List String)
      → (generate p host job w).0 ≡ ok a
      → (generate p host job w).1.commands ≡ programs w.commands
  unfolding generate
  generate-programs w a h = ground arith

  body-programs :
      (w : World p)
      → (body p host job now w).0 ≡ ok tt
      → (body p host job now w).1.commands ≡ programs w.commands
  unfolding body
  body-programs w h = grind (arith, generate-programs)

  -- A job that returns has compiled the circuit unless it was compiled, has made the proving key
  -- in three steps unless there was one, and has then made the witness and the proof, in this
  -- order, once each.
  pub process-programs :
      (w : World p)
      → (process p host job now w).0 ≡ ok tt
      → (process p host job now w).1.commands ≡ programs w.commands
  unfolding process clean_up fail_proof
  process-programs w h =
      let start : World p = record w { work_dir = none } in ground (arith, body-programs start)
