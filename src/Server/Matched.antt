-- ===== src/Server/Matched.antt =====
-- jobs-actix/src/server.rs: a worker waits in the entry of its own queue, and is only ever sent jobs
-- of its own queue.
use backjob.Common.{
  ℕ, String, ◌≡◌, refl, sym, subst, ◌∙◌, inl, inr, Bool, true, false, Option, none, some, List, [],
  ◌∷◌, ◌++◌, All, All-append, string_eq, arith, Bool-cases, Option-cases, if◌then◌else◌, ◌==◌,
  beq_iff,
}
use backjob.Common.HashMap.{get, get-insert}
use backjob.Outcome.{Outcome, ok, err, panic, pure, continue}
use backjob.Chrono.{Clock, later}
use backjob.JobInfo.{JobInfo, NewJobInfo, is_unscheduled}
use backjob.Actix.{ActixStorage}
use backjob.Server.{
  Worker, Server, or_empty, waiting, with_entry, send, settle, serve_entry, serve_queue,
  handle_new_job, place, handle_request_job,
}

-- The store answers a request with a job of the queue that was asked for.
abbrev pub AnswersInQueue : {S F V : Type 0} → ActixStorage S F V → Type 0
AnswersInQueue {S} {F} {V} store =
    (clock : Clock) (queue : String) (runner_id : ℕ) (job : JobInfo V) (s t : S)
    → store.request_job clock queue runner_id s ≡ (ok (some job), t)
    → job.queue ≡ queue

abbrev pub AllOf : String → List Worker → Type 0
AllOf queue = All (λ w. w.queue ≡ queue)

pub record IsMatched {S V : Type 0} (server : Server S V) : Type 0 where
  pub filed :
      (queue : String) (workers : List Worker)
      → get queue server.cache ≡ some workers
      → AllOf queue workers
  pub fitting : All (λ m. m.1.queue ≡ m.0.queue) server.sent

module _ {S V : Type 0} (server : Server S V) (v : IsMatched server) where
  waiting-AllOf : (queue : String) → AllOf queue (waiting queue server)
  waiting-AllOf queue = elim (Option-cases (get queue server.cache)) [
    | inl e ↦ subst (λ o. AllOf queue (or_empty o)) (sym e) tt
    | inr (workers, e) ↦ subst (λ o. AllOf queue (or_empty o)) (sym e) (v.filed queue workers e)
  ]

  pub with_entry-IsMatched :
      (queue : String) (workers : List Worker) (s : S)
      → AllOf queue workers
      → IsMatched (with_entry queue workers s server)
  with_entry-IsMatched queue workers s all = record {
    filed = λ q ws h. elim (Bool-cases (queue == q)) [
      | inl hit ↦
          let same : workers ≡ ws = ground (arith, get-insert queue q workers server.cache) in
          let own : queue ≡ q = (beq_iff queue q).0 hit in
          subst (λ k. AllOf k ws) own (subst (AllOf queue) same all)
      | inr miss ↦ v.filed q ws (ground (arith, get-insert queue q workers server.cache))
    ];
    fitting = v.fitting;
  }

  pub send-IsMatched :
      (worker : Worker) (job : JobInfo V)
      → job.queue ≡ worker.queue
      → IsMatched (send worker job server)
  send-IsMatched worker job e = record {
    filed = v.filed;
    fitting =
        All-append (λ m. m.1.queue ≡ m.0.queue) server.sent ((worker, job) ∷ []) v.fitting (e, tt);
  }

  pub stored-IsMatched : (s : S) → IsMatched (record server { storage = s })
  stored-IsMatched s = record { filed = v.filed; fitting = v.fitting }

module _ {S F V : Type 0} (store : ActixStorage S F V) (fits : AnswersInQueue store) where
  settle-IsMatched :
      (queue : String) (worker : Worker) (rest : List Worker) (r : Outcome F (Option (JobInfo V)))
      (s : S) (server : Server S V)
      → ((job : JobInfo V) → r ≡ ok (some job) → job.queue ≡ queue)
      → AllOf queue (worker ∷ rest)
      → IsMatched server
      → IsMatched (settle store queue worker rest r s server).1
  unfolding settle
  settle-IsMatched queue worker rest (ok (some job)) s server fit all v =
      send-IsMatched _ (with_entry-IsMatched server v queue rest s (all.1)) worker job
        (fit job refl ∙ sym (all.0))
  settle-IsMatched queue worker rest (ok none) s server fit all v =
      with_entry-IsMatched server v queue (rest ++ worker ∷ []) s
        (All-append (λ w. w.queue ≡ queue) rest (worker ∷ []) (all.1) (all.0, tt))
  settle-IsMatched queue worker rest (err e) s server fit all v =
      with_entry-IsMatched server v queue (rest ++ worker ∷ []) s
        (All-append (λ w. w.queue ≡ queue) rest (worker ∷ []) (all.1) (all.0, tt))
  settle-IsMatched queue worker rest panic s server fit all v =
      with_entry-IsMatched server v queue rest s (all.1)

  pub answer_fits :
      (clock : Clock) (queue : String) (worker : Worker) (server : Server S V) (job : JobInfo V)
      → (store.request_job clock queue worker.id server.storage).0 ≡ ok (some job)
      → job.queue ≡ queue
  answer_fits clock queue worker server job e =
      let (r, s) = store.request_job clock queue worker.id server.storage in
      fits clock queue worker.id job server.storage s (λ i. (e i, s))

  serve_entry-IsMatched :
      (clock : Clock) (queue : String) (workers : List Worker) (server : Server S V)
      → AllOf queue workers
      → IsMatched server
      → IsMatched (serve_entry store clock queue workers server).1
  unfolding serve_entry
  serve_entry-IsMatched clock queue [] server all v =
      with_entry-IsMatched server v queue [] server.storage tt
  serve_entry-IsMatched clock queue (worker ∷ rest) server all v =
      let (r, s) = store.request_job clock queue worker.id server.storage in
      settle-IsMatched queue worker rest r s server (answer_fits clock queue worker server) all v

  serve_if :
      (ready : Bool) (clock : Clock) (queue : String) (r : Outcome F ℕ) (server : Server S V)
      → IsMatched server
      → IsMatched
          (continue r (λ _. if ready then serve_queue store clock queue else pure tt) server).1
  unfolding serve_queue
  serve_if true clock queue (ok _) server v =
      serve_entry-IsMatched clock queue (waiting queue server) server (waiting-AllOf server v queue)
        v
  serve_if false clock queue (ok _) server v = v
  serve_if ready clock queue (err e) server v = v
  serve_if ready clock queue panic server v = v

  -- Storing a new job, and handing it on, keeps the workers matched.
  pub handle_new_job-IsMatched :
      (clock : Clock) (new : NewJobInfo V) (server : Server S V)
      → IsMatched server
      → IsMatched (handle_new_job store clock new server).1
  unfolding handle_new_job
  handle_new_job-IsMatched clock new server v =
      serve_if (is_unscheduled new) (later 3 clock) new.queue
        (store.new_job clock new server.storage).0
        (record server { storage = (store.new_job clock new server.storage).1 })
        (stored-IsMatched server v (store.new_job clock new server.storage).1)

  place_answer :
      (worker : Worker) (r : Outcome F (Option (JobInfo V))) (server : Server S V)
      → ((job : JobInfo V) → r ≡ ok (some job) → job.queue ≡ worker.queue)
      → IsMatched server
      → IsMatched (continue r (place store worker) server).1
  unfolding place
  place_answer worker (ok (some job)) server fit v =
      send-IsMatched server v worker job (fit job refl)
  place_answer worker (ok none) server fit v =
      with_entry-IsMatched server v worker.queue (waiting worker.queue server ++ worker ∷ [])
        server.storage
        (All-append (λ w. w.queue ≡ worker.queue) (waiting worker.queue server) (worker ∷ [])
          (waiting-AllOf server v worker.queue) (refl, tt))
  place_answer worker (err e) server fit v = v
  place_answer worker panic server fit v = v

  pub handle_request_job-IsMatched :
      (clock : Clock) (worker : Worker) (server : Server S V)
      → IsMatched server
      → IsMatched (handle_request_job store clock worker server).1
  unfolding handle_request_job
  handle_request_job-IsMatched clock worker server v =
      let (r, s) = store.request_job clock worker.queue worker.id server.storage in
      place_answer worker r (record server { storage = s })
        (answer_fits clock worker.queue worker server) (stored-IsMatched server v s)
