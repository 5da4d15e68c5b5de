-- ===== src/Worker.antt =====
-- apps/server/src/modules/proofs/proof-queue.worker.ts: the queue's worker that turns a proof job
-- into a Groth16 proof. `Input` builds the witness input from the claims, `Process` is the job.
pub mod Input
pub mod Process
