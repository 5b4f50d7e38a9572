-- ===== src/Server/Check.antt =====
-- jobs-actix/src/server.rs: the walk over the waiting workers keeps them matched, and so does every
-- message.
use backjob.Common.{
  ℕ, suc, String, ◌≡◌, refl, sym, Option, none, some, List, [], ◌∷◌, All, All-append, All-mem,
  string_eq, ◌∙◌,
}
use backjob.Common.HashMap.{Iteration}
use backjob.Outcome.{Outcome, ok, err, panic}
use backjob.Chrono.{Clock, later}
use backjob.JobInfo.{JobInfo}
use backjob.Actix.{ActixStorage}
use backjob.Server.{
  Worker, Server, Message, new_job, returning_job, request_job, check_db, send, with_entry,
  drain_on, drain, check_entries, next_entry, handle_check_db, handle_returning_job, handle,
}
use backjob.Server.Matched.{
  AnswersInQueue, AllOf, IsMatched, answer_fits, send-IsMatched, stored-IsMatched,
  with_entry-IsMatched, handle_new_job-IsMatched, handle_request_job-IsMatched,
}

module _ {S F V : Type 0} (store : ActixStorage S F V) (fits : AnswersInQueue store) where
  abbrev Drained : String → Outcome F (Unit {0}) × List Worker × Server S V → Type 0
  Drained queue x = AllOf queue x.1 × IsMatched x.2

  drain_on-Drained :
      (more : Server S V → Outcome F (Unit {0}) × List Worker × Server S V) (queue : String)
      (worker : Worker) (rest : List Worker) (x : Outcome F (Option (JobInfo V)) × S)
      (server : Server S V)
      → ((job : JobInfo V) → x.0 ≡ ok (some job) → job.queue ≡ queue)
      → ((next : Server S V) → IsMatched next → Drained queue (more next))
      → AllOf queue (worker ∷ rest)
      → IsMatched server
      → Drained queue (drain_on store more worker rest x server)
  unfolding drain_on
  drain_on-Drained more queue worker rest (ok (some job), s) server fit ih all v =
      ih (send worker job (record server { storage = s })) (
        send-IsMatched (record server { storage = s }) (stored-IsMatched server v s) worker job
          (fit job refl ∙ sym (all.0)))
  drain_on-Drained more queue worker rest (ok none, s) server fit ih all v = (
    All-append (λ w. w.queue ≡ queue) rest (worker ∷ []) (all.1) (all.0, tt),
    stored-IsMatched server v s,
  )
  drain_on-Drained more queue worker rest (err e, s) server fit ih all v = (
    All-append (λ w. w.queue ≡ queue) rest (worker ∷ []) (all.1) (all.0, tt),
    stored-IsMatched server v s,
  )
  drain_on-Drained more queue worker rest (panic, s) server fit ih all v =
      (all.1, stored-IsMatched server v s)

  drain-Drained :
      (clock : Clock) (queue : String) (workers : List Worker) (server : Server S V)
      → AllOf queue workers
      → IsMatched server
      → Drained queue (drain store clock queue workers server)
  unfolding drain
  drain-Drained clock queue [] server all v = (tt, v)
  drain-Drained clock queue (worker ∷ rest) server all v =
      drain_on-Drained (drain store (later 6 clock) queue rest) queue worker rest
        (store.request_job clock queue worker.id server.storage) server
        (answer_fits store fits clock queue worker server)
        (λ next w. drain-Drained (later 6 clock) queue rest next (all.1) w) all v

  next_entry-IsMatched :
      (more : Server S V → Outcome F (Unit {0}) × Server S V) (queue : String)
      (x : Outcome F (Unit {0}) × List Worker × Server S V)
      → Drained queue x
      → ((next : Server S V) → IsMatched next → IsMatched (more next).1)
      → IsMatched (next_entry store more queue x).1
  unfolding next_entry
  next_entry-IsMatched more queue (ok _, left, after) (fit, v) ih =
      ih (with_entry queue left after.storage after)
        (with_entry-IsMatched after v queue left after.storage fit)
  next_entry-IsMatched more queue (err e, left, after) (fit, v) ih =
      with_entry-IsMatched after v queue left after.storage fit
  next_entry-IsMatched more queue (panic, left, after) (fit, v) ih =
      with_entry-IsMatched after v queue left after.storage fit

  check_entries-IsMatched :
      (clocks : ℕ → Clock) (entries : List (String × List Worker)) (server : Server S V)
      → All (λ e. AllOf e.0 e.1) entries
      → IsMatched server
      → IsMatched (check_entries store clocks entries server).1
  unfolding check_entries
  check_entries-IsMatched clocks [] server all v = v
  check_entries-IsMatched clocks ((queue, workers) ∷ more) server all v =
      next_entry-IsMatched (check_entries store (λ n. clocks (suc n)) more) queue
        (drain store (clocks 0) queue workers server)
        (drain-Drained (clocks 0) queue workers server (all.0) v)
        (λ next w. check_entries-IsMatched (λ n. clocks (suc n)) more next (all.1) w)

  -- Whatever message the server handles, and whether or not the handler succeeds, a waiting worker
  -- stays in the entry of its own queue, and every job sent so far is of its worker's queue.
  pub handle-IsMatched :
      (order : Iteration String (List Worker)) (clocks : ℕ → Clock) (message : Message V)
      (server : Server S V)
      → IsMatched server
      → IsMatched (handle store order clocks message server).1
  unfolding handle handle_check_db handle_returning_job
  handle-IsMatched order clocks (new_job new) server v =
      handle_new_job-IsMatched store fits (clocks 0) new server v
  handle-IsMatched order clocks (returning_job r) server v =
      stored-IsMatched server v (store.return_job (clocks 0) r server.storage).1
  handle-IsMatched order clocks (request_job worker) server v =
      handle_request_job-IsMatched store fits (clocks 0) worker server v
  handle-IsMatched order clocks check_db server v =
      check_entries-IsMatched clocks (order.iter server.cache) server
        (All-mem (λ e. AllOf e.0 e.1) (order.iter server.cache)
          (λ e m. v.filed e.0 e.1 (order.sound e.0 e.1 server.cache m)))
        v
