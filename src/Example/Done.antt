-- ===== src/Example/Done.antt =====
-- examples/actix-example/src/main.rs with the library: what becomes of a job of the program.
use backjob.Common.{
  ℕ, ◌≡◌, ◌≢◌, refl, sym, ap, ◌∙◌, String, Option, some, List, [], ◌∷◌, ◌++◌, All-lookup, string_eq,
  nat_eq, arith, inl, inr, beq_iff, Bool-cases, ◌==◌,
}
use mathlib.Core.List.{Memᴰ}
use backjob.Common.HashMap
use backjob.Common.HashMap.{HashMap, Iteration, get, insert, get-empty, get-insert, get-insert_self}
use backjob.Outcome.{Outcome, ok, continue}
use backjob.Chrono.{Chrono, Clock}
use backjob.JobInfo.{JobInfo, run, with_id, NewJobInfo}
use backjob.Processor.{Serde, RoundTrips}
use backjob.Processor
use backjob.ProcessorMap.{ProcessorMap, register_processor}
use backjob.ProcessorMap
use backjob.Memory.{Inner, Never, storage}
use backjob.Memory
use backjob.Memory.View.{view}
use backjob.Memory.Requests.{new-IsValid, request_job-idle}
use backjob.Actix.{ActixStorage, storage_wrapper, map_err}
use backjob.Server.{Worker, Server, Message, waiting, or_empty, handle, handle_request_job, place}
use backjob.Server
use backjob.Workers.{LocalWorker, handle_of, handle_process_job, register, set_processor_count}
use backjob.Workers
use backjob.Workers.Started.{start-Serves}
use backjob.Pool
use backjob.Pool.{queue}
use backjob.Pool.System.{started}
use backjob.Pool.Life.{first_run, queued_is, queue-Ends}
use backjob.Pool.Life.Left.{IsGone}
use backjob.Example.{
  MyJob, MyState, my_state, my_job, my_jobs, my_processor, default_queue, servers, workers, main,
}

module _ {V : Type 0} (serde : Serde MyJob V) (Cause : Type 0) where
  workers-processors :
      (workers serde Cause).processors
      ≡ register_processor my_processor.name
          (Processor.process serde my_jobs)
          (ProcessorMap.new (λ _. my_state "My App"))
  unfolding workers Workers.new register set_processor_count
  workers-processors = refl

  -- All workers are of the one queue.
  workers-queues :
      (q : String) (n : ℕ) → get q (workers serde Cause).queues ≡ some n → q ≡ default_queue
  unfolding workers Workers.new register set_processor_count
  workers-queues q n h = elim (Bool-cases (default_queue == q)) [
    | inl hit ↦ sym ((beq_iff default_queue q).0 hit)
    | inr miss ↦
        let fours = insert default_queue 4 HashMap.empty in
        let last = get-insert {V = ℕ} default_queue q 16 fours in
        let first = get-insert {V = ℕ} default_queue q 4 HashMap.empty in
        let nothing = get-empty {V = ℕ} q in absurd (ground (arith, last, first, nothing))
  ]

  queue-my_jobs :
      (job : MyJob) (new : NewJobInfo V)
      → queue serde (my_jobs {Cause = Cause}) my_processor job ≡ some (Message.new_job new)
      → new.queue ≡ default_queue
  unfolding Processor.new_job
  queue-my_jobs job new h =
      let made = queued_is serde (my_jobs {Cause = Cause}) my_processor job new h in ground arith

  -- Each of them has the processor of the program under its name.
  registered :
      (processors : ProcessorMap V MyState Cause)
      → processors ≡ (workers serde Cause).processors
      → get my_processor.name processors.inner ≡ some (Processor.process serde my_jobs)
  unfolding register_processor
  registered processors same =
      ap (λ (q : ProcessorMap V MyState Cause). get my_processor.name q.inner)
        (same ∙ workers-processors)
      ∙ get-insert_self my_processor.name (Processor.process serde my_jobs) _

-- A server that keeps nobody waiting, after a worker asked it for nothing.
module _ {V : Type 0} (s : Inner V) (worker : Worker) where
  abbrev after_asking : Server (Inner V) V
  after_asking = record {
    storage = s;
    cache =
        insert worker.queue (or_empty (get worker.queue HashMap.empty) ++ worker ∷ [])
          HashMap.empty;
    sent = [];
  }

  waiting-after_asking : waiting worker.queue after_asking ≡ worker ∷ []
  waiting-after_asking =
      ap or_empty (
        get-insert_self worker.queue (or_empty (get worker.queue HashMap.empty) ++ worker ∷ [])
          HashMap.empty)
      ∙ ap (λ o. or_empty o ++ worker ∷ []) (get-empty worker.queue)

  -- The worker asks, and nothing waits for it.
  handle_request_job-after_asking :
      {F : Type 0} (order : Iteration ℕ String) (chrono : Chrono) (from : Never → F) (clock : Clock)
      → ((k : ℕ) → (view s).queued k ≢ some worker.queue)
      → handle_request_job (storage_wrapper from chrono (storage order)) clock worker (Server.new s)
        ≡ (ok tt, after_asking)
  unfolding handle_request_job place Server.new
  handle_request_job-after_asking {F} order chrono from clock idle =
      let actix : ActixStorage (Inner V) F V = storage_wrapper from chrono (storage order) in
      ap
        (λ (x : Outcome Never (Option (JobInfo V)) × Inner V).
          continue (map_err from x.0) (place actix worker)
            (record (Server.new s) { storage = x.1 }))
        (request_job-idle order chrono clock worker.queue worker.id s idle)

-- A new store is empty.
idle :
    (V : Type 0) (clock : Clock) (q : String) (k : ℕ)
    → (view {V = V} (Memory.new clock)).queued k ≢ some q
unfolding Memory.new
idle V clock q k h = let e = get-empty {V = String} k in cc

module _ {V Cause F : Type 0} (serde : Serde MyJob V) (order : Iteration ℕ String) (chrono : Chrono)
    (from : Never → F) (queues : Iteration String ℕ) (walk : Iteration String (List Worker)) where
  -- In the example program, over the store that `main` makes, if JSON reads back what it writes:
  -- once any of the workers that `main` starts has asked a
  -- server to which nothing else was sent, a job that the handle queues is sent to that worker, under
  -- the identifier 0, whatever its two numbers, and all three handlers succeed, and the answer of that
  -- worker leaves nothing of the job in the store.
  pub my_job-IsGone :
      (cpus : ℕ) (born : Clock) (asked created returned : ℕ → Clock) (a b n addr : ℕ)
      (new : NewJobInfo V) (actor : LocalWorker V MyState Cause)
      → RoundTrips serde
      → queue serde (my_jobs {Cause = Cause}) my_processor (my_job a b) ≡ some (Message.new_job new)
      → Memᴰ actor (Workers.start queues (workers serde Cause))
      → (let actix : ActixStorage (Inner V) F V = storage_wrapper from chrono (storage order) in
          let begun = (main serde Cause queues cpus born).0.pool.storage in
          let worker = handle_of addr actor in
          let sent = first_run (created 0) 0 new in
          (s : Server (Inner V) V) × (t : Server (Inner V) V) × (u : Server (Inner V) V) × (handle
              actix walk asked
              (Message.request_job worker)
              (Server.new begun)
            ≡ (ok tt, s))
          × (handle actix walk created (Message.new_job new) s ≡ (ok tt, t))
          × (t.sent ≡ (worker, sent) ∷ [])
          × (handle actix walk returned
                (Message.returning_job (handle_process_job addr n sent actor).0)
                t
              ≡ (ok tt, u))
          × IsGone 0 (view u.storage))
  unfolding handle main servers started Pool.start Memory.new handle_of run with_id
  my_job-IsGone cpus born asked created returned a b n addr new actor trips queued here =
      let (processors, count, known) =
        All-lookup _ _ (start-Serves queues (workers serde Cause)) here in
      let own : actor.queue ≡ default_queue = workers-queues serde Cause actor.queue count known in
      let same : new.queue ≡ default_queue = queue-my_jobs serde Cause (my_job a b) new queued in
      let worker = handle_of addr actor in
      let store : Inner V = Memory.new born in
      let first =
        handle_request_job-after_asking store worker order chrono from (asked 0)
          (idle V born worker.queue) in
      let were : waiting new.queue (after_asking store worker) ≡ worker ∷ [] =
        ap (λ q. waiting q (after_asking store worker)) (same ∙ sym own)
        ∙ waiting-after_asking store worker in
      let (t, u, second, sent, third, gone) =
        queue-Ends serde my_jobs my_processor order chrono from (my_job a b) new worker []
          (after_asking store worker) walk created returned n actor trips
          (λ e bad more. absurd (cc)) queued (new-IsValid born) (omega arith) were
          (idle V born new.queue) (registered serde Cause actor.processors processors) in
      (after_asking store worker, t, u, first, second, sent, third, gone)
