-- ===== src/Examples/Jobs.antt =====
-- A proof job on a host where every program succeeds, and the inputs of the circuits.
use mathlib.Core.List.{Memᴰ}
use stprivy.Common.{ℕ, ◌≡◌, ◌%◌, ◌^◌, ◌↔◌, true, false, none, List, [], ◌∷◌, refl}
use stprivy.Common.Tests.{length}
use stprivy.Common.Exec.{ok}
use stprivy.Domain.{Proof, mock, ProofStatus}
use stprivy.Domain.Db.{assoc_db, empty_db}
use stprivy.Worker.Input.{
  Claims, int, bool, text, accredited_investor, residency_proof, good, units, allowed_codes,
  build_input, encode_country, encode_all, hash_loop, require_int, require_boolean, require_string,
}
use stprivy.Worker.Input.Hash.{polynomial, hash_loop-eq-polynomial}
use stprivy.Worker.Input.Country.{build_input_residency, allowed_numbers}
use stprivy.Worker.Process.{Job, Host, World, process, is_known, generate}
use stprivy.Worker.Process.Outcome.{Settled, process-Settled}

abbrev same : List ℕ → List ℕ
same cs = cs

abbrev claims : Claims
claims = record {
  age = int 30;
  country = text (units "US");
  accredited = bool true;
  json = units "{}";
}

abbrev job : Job
job = record {
  proof_id = "p1";
  subject_did = "did:s";
  credential_id = "c1";
  circuit_id = "age-proof";
  claims = claims;
}

abbrev host : Host
host = record {
  has_circuit = true;
  has_r1cs = true;
  has_wasm = false;
  has_zkey = false;
  has_ptau = true;
  fresh_dir = "/tmp/a";
  write = λ input. ok tt;
  run = λ command. ok tt;
  read_artifacts = ok (mock "", "1" ∷ []);
  remove = ok tt;
  make_dir = ok tt;
  upper = same;
}

abbrev proof : Proof
proof = record {
  id = "p1";
  subject_did = "did:s";
  credential_id = "c1";
  circuit_id = "age-proof";
  artifact = none;
  generated_at = none;
  status = ProofStatus.pending;
}

abbrev world : World assoc_db
world = record {
  db = record empty_db { proofs = ("p1", proof) ∷ [] };
  dirs = "/tmp/b" ∷ [];
  work_dir = none;
  commands = [];
}

process-Settled_example :
    Settled assoc_db host job 7
      (process assoc_db host job 7 world).0
      proof
      (assoc_db.proofs.find "p1" (process assoc_db host job 7 world).1.db.proofs)
process-Settled_example = process-Settled assoc_db host job 7 world proof refl

returned : (process assoc_db host job 7 world).0 ≡ ok tt
unfolding process generate is_known build_input require_int
returned = refl

hash_loop-eq-polynomial_example :
    hash_loop 0 (123 ∷ 125 ∷ []) ≡ polynomial 0 (123 ∷ 125 ∷ []) % 2 ^ 32
hash_loop-eq-polynomial_example = hash_loop-eq-polynomial (123 ∷ 125 ∷ [])

resident :
    build_input same "residency-proof" claims ≡ good (residency_proof 21843 allowed_numbers 10)
unfolding build_input encode_country encode_all require_string
resident = refl

build_input_residency_example :
    (10 ≡ length allowed_numbers) × (Memᴰ 21843 allowed_numbers ↔ Memᴰ (units "US") allowed_codes)
build_input_residency_example =
    build_input_residency same (λ n cs pair. refl) claims (units "US") 21843 10 allowed_numbers refl
      resident

investor : build_input same "accredited-investor" claims ≡ good (accredited_investor 1 30)
unfolding build_input require_int require_boolean
investor = refl
