-- ===== src/Pool/Timers.antt =====
-- jobs-actix/src/every.rs: how often a recurring job is queued.
use backjob.Common.{ℕ, zero, suc, ◌≡◌, refl, ap, some, ◌∷◌}
use backjob.Processor.{Serde, Job, Processor}
use backjob.Server.{Message}
use backjob.Pool.{replicate, queue, every}

module _ {J V State Cause : Type 0} (serde : Serde J V) (jobs : Job J State Cause) (p : Processor)
    (job : J) where
  -- A recurring job that JSON can carry is queued once at the start and once after each period, each
  -- time as the same message.
  pub every-queue :
      (message : Message V) (n : ℕ)
      → queue serde jobs p job ≡ some message
      → every serde jobs p job n ≡ replicate (suc n) message
  unfolding every
  every-queue message zero h = rw (h, every) refl
  every-queue message (suc n) h = rw (h, every) (ap (◌∷◌ message) (every-queue message n h))
