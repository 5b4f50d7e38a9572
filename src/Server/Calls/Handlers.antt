-- ===== src/Server/Calls/Handlers.antt =====
-- jobs-actix/src/server.rs: each handler as a history of calls of the store.
use backjob.Common.{
  ℕ, suc, ◌+◌, ◌^◌, ◌<◌, String, refl, sym, subst, Bool, true, false, Option, none, some, List, [],
  inl, inr, ◌∷◌, string_eq, if◌then◌else◌,
}
use mathlib.Core.List.{append-nil}
use backjob.Common.HashMap.{Iteration}
use backjob.Outcome.{Outcome, ok, err, panic, Exec, pure, continue}
use backjob.Chrono.{Chrono, Clock, later}
use backjob.JobInfo.{JobInfo, NewJobInfo, ReturnJobInfo, is_unscheduled}
use backjob.Storage.Trait.{Storage}
use backjob.Storage.Spec.{Spec}
use backjob.Storage.Covers.{Covers-self}
use backjob.Storage.Delivery.{created, returned}
use backjob.Storage.Calls.{Calls, news, gives_back, done, after}
use backjob.Storage.Reliable.{IsReliable}
use backjob.Actix.{ActixStorage, storage_wrapper, map_err}
use backjob.Server.{
  Worker, Server, Message, new_job, returning_job, request_job, check_db, waiting, send, with_entry,
  settle, serve_entry, serve_queue, handle_new_job, handle_returning_job, place, handle_request_job,
  drain_on, drain, next_entry, check_entries, handle_check_db, handle,
}
use backjob.Server.Calls.{Told, nothing, chain, asked, asks, answers, receiving, HasRoom}

module _ {S E F V : Type 0} (from : E → F) (chrono : Chrono) (store : Storage S E V)
    (view : S → Spec V) {Good : S → Type 0} (reliable : IsReliable chrono store Good) where
  abbrev wrapped : ActixStorage S F V
  wrapped = storage_wrapper from chrono store

  -- A message that returns no job.
  abbrev Tells : Server S V → Server S V → Type 0
  Tells = Told from chrono store view reliable []

  settle-Told :
      (queue : String) (worker : Worker) (rest : List Worker) (o : Option (JobInfo V)) (t : S)
      (server : Server S V)
      → Calls chrono store view server.storage (asked o) t
      → Good t
      → Tells server (settle wrapped queue worker rest (ok o) t server).1
  unfolding settle
  settle-Told queue worker rest none t server calls kept =
      answers from chrono store view reliable none worker server
        (settle wrapped queue worker rest (ok none) t server).1 calls kept
        (sym (append-nil server.sent))
  settle-Told queue worker rest (some job) t server calls kept =
      answers from chrono store view reliable (some job) worker server
        (settle wrapped queue worker rest (ok (some job)) t server).1 calls kept refl

  serve_entry-Told :
      (clock : Clock) (queue : String) (workers : List Worker) (server : Server S V)
      → Tells server (serve_entry wrapped clock queue workers server).1
  unfolding serve_entry
  serve_entry-Told clock queue [] server =
      nothing from chrono store view reliable server (with_entry queue [] server.storage server)
        refl refl
  serve_entry-Told clock queue (worker ∷ rest) server = λ good.
      let (o, t, e, calls, kept) =
        asks from chrono store view reliable clock queue worker.id server.storage good in
      subst
        (λ (x : Outcome F (Option (JobInfo V)) × S).
          Tells server (settle wrapped queue worker rest x.0 x.1 server).1)
        (sym e) (settle-Told queue worker rest o t server calls kept) good

  serve_if :
      (ready : Bool) (clock : Clock) (queue : String) (server : Server S V)
      → Tells server ((if ready then serve_queue wrapped clock queue else pure tt) server).1
  unfolding serve_queue
  serve_if true clock queue server = serve_entry-Told clock queue (waiting queue server) server
  serve_if false clock queue server =
      nothing from chrono store view reliable server server refl refl

  handle_new_job-Told :
      (clock : Clock) (new : NewJobInfo V) (server : Server S V)
      → (view server.storage).next_id + 1 < 2 ^ 64
      → Tells server (handle_new_job wrapped clock new server).1
  unfolding handle_new_job
  handle_new_job-Told clock new server room good =
      let (id, t, e, kept) = reliable.new_job clock new server.storage good in
      let stored : Server S V = record server { storage = t } in
      let rest : ℕ → Exec (Server S V) F (Unit {0}) = λ _.
        if is_unscheduled new then serve_queue wrapped (later 3 clock) new.queue else pure tt in
      subst
        (λ (x : Outcome E ℕ × S).
          Tells server (continue (map_err from x.0) rest (record server { storage = x.1 })).1)
        (sym e)
        (chain from chrono store view reliable server stored (rest id stored).1 []
          (λ _. (
            created id ∷ [],
            [],
            after (created id) (news clock new id room e) done,
            sym (append-nil server.sent),
            refl,
            kept,
          ))
          (serve_if (is_unscheduled new) (later 3 clock) new.queue stored))
        good

  handle_returning_job-Told :
      (clock : Clock) (r : ReturnJobInfo) (server : Server S V)
      → Told from chrono store view reliable
          (returned r.id ∷ [])
          server
          (handle_returning_job wrapped clock r server).1
  unfolding handle_returning_job
  handle_returning_job-Told clock r server good =
      elim (reliable.return_job clock r server.storage good) [
        | inl (_, t, e, kept) ↦
            subst (λ (x : Outcome E (Unit {0}) × S). Heard (record server { storage = x.1 }))
              (sym e)
              (λ _. (
                returned r.id ∷ [],
                [],
                after (returned r.id) (gives_back clock r r.id refl e) done,
                sym (append-nil server.sent),
                Covers-self (returned r.id ∷ []),
                kept,
              ))
              good
        | inr e ↦
            subst (λ (x : Outcome E (Unit {0}) × S). Heard (record server { storage = x.1 }))
              (sym e) (λ still. ([], [], done, sym (append-nil server.sent), inl refl, still)) good
      ]
    where
      Heard : Server S V → Type 0
      Heard = Told from chrono store view reliable (returned r.id ∷ []) server

  place-Told :
      (worker : Worker) (o : Option (JobInfo V)) (t : S) (server : Server S V)
      → Calls chrono store view server.storage (asked o) t
      → Good t
      → Tells server (place wrapped worker o (record server { storage = t })).1
  unfolding place
  place-Told worker none t server calls kept =
      answers from chrono store view reliable none worker server
        (place wrapped worker none (record server { storage = t })).1 calls kept
        (sym (append-nil server.sent))
  place-Told worker (some job) t server calls kept =
      answers from chrono store view reliable (some job) worker server
        (place wrapped worker (some job) (record server { storage = t })).1 calls kept refl

  handle_request_job-Told :
      (clock : Clock) (worker : Worker) (server : Server S V)
      → Tells server (handle_request_job wrapped clock worker server).1
  unfolding handle_request_job
  handle_request_job-Told clock worker server good =
      let (o, t, e, calls, kept) =
        asks from chrono store view reliable clock worker.queue worker.id server.storage good in
      subst
        (λ (x : Outcome F (Option (JobInfo V)) × S).
          Tells server (continue x.0 (place wrapped worker) (record server { storage = x.1 })).1)
        (sym e) (place-Told worker o t server calls kept) good

  drain_on-Told :
      (more : Server S V → Outcome F (Unit {0}) × List Worker × Server S V) (worker : Worker)
      (rest : List Worker) (o : Option (JobInfo V)) (t : S) (server : Server S V)
      → ((next : Server S V) → Tells next (more next).2)
      → Calls chrono store view server.storage (asked o) t
      → Good t
      → Tells server (drain_on wrapped more worker rest (ok o, t) server).2
  unfolding drain_on
  drain_on-Told more worker rest none t server ih calls kept =
      answers from chrono store view reliable none worker server (record server { storage = t })
        calls kept (sym (append-nil server.sent))
  drain_on-Told more worker rest (some job) t server ih calls kept =
      let next = send worker job (record server { storage = t }) in
      chain from chrono store view reliable server next (more next).2 []
        (answers from chrono store view reliable (some job) worker server next calls kept refl)
        (ih next)

  drain-Told :
      (clock : Clock) (queue : String) (workers : List Worker) (server : Server S V)
      → Tells server (drain wrapped clock queue workers server).2
  unfolding drain
  drain-Told clock queue [] server = nothing from chrono store view reliable server server refl refl
  drain-Told clock queue (worker ∷ rest) server = λ good.
      let (o, t, e, calls, kept) =
        asks from chrono store view reliable clock queue worker.id server.storage good in
      let more = drain wrapped (later 6 clock) queue rest in
      subst
        (λ (x : Outcome F (Option (JobInfo V)) × S).
          Tells server (drain_on wrapped more worker rest x server).2)
        (sym e)
        (drain_on-Told more worker rest o t server (drain-Told (later 6 clock) queue rest) calls
          kept)
        good

  next_entry-Told :
      (more : Exec (Server S V) F (Unit {0})) (queue : String)
      (x : Outcome F (Unit {0}) × List Worker × Server S V) (server : Server S V)
      → Tells server x.2
      → ((next : Server S V) → Tells next (more next).1)
      → Tells server (next_entry wrapped more queue x).1
  unfolding next_entry
  next_entry-Told more queue (ok _, left, after_) server h ih =
      let next = with_entry queue left after_.storage after_ in
      chain from chrono store view reliable server next (more next).1 [] h (ih next)
  next_entry-Told more queue (err e, left, after_) server h ih = h
  next_entry-Told more queue (panic, left, after_) server h ih = h

  check_entries-Told :
      (clocks : ℕ → Clock) (entries : List (String × List Worker)) (server : Server S V)
      → Tells server (check_entries wrapped clocks entries server).1
  unfolding check_entries
  check_entries-Told clocks [] server =
      nothing from chrono store view reliable server server refl refl
  check_entries-Told clocks ((queue, workers) ∷ more) server =
      next_entry-Told (check_entries wrapped (λ n. clocks (suc n)) more) queue
        (drain wrapped (clocks 0) queue workers server) server
        (drain-Told (clocks 0) queue workers server) (check_entries-Told (λ n. clocks (suc n)) more)

  -- Whatever message the server handles, it calls the store as the message says, and the jobs that it
  -- sends are those that the store handed out meanwhile.
  pub handle-Told :
      (order : Iteration String (List Worker)) (clocks : ℕ → Clock) (message : Message V)
      (server : Server S V)
      → HasRoom (view server.storage) message
      → Told from chrono store view reliable
          (receiving message)
          server
          (handle wrapped order clocks message server).1
  unfolding handle handle_check_db
  handle-Told order clocks (new_job new) server room =
      handle_new_job-Told (clocks 0) new server room
  handle-Told order clocks (returning_job r) server room =
      handle_returning_job-Told (clocks 0) r server
  handle-Told order clocks (request_job worker) server room =
      handle_request_job-Told (clocks 0) worker server
  handle-Told order clocks check_db server room =
      check_entries-Told clocks (order.iter server.cache) server
