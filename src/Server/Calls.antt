-- ===== src/Server/Calls.antt =====
-- jobs-actix/src/server.rs: what a handler does to the store, as a history of calls, and which jobs it
-- sends meanwhile.
pub mod Handlers
use backjob.Common.{
  ℕ, suc, ◌+◌, ◌^◌, ◌<◌, String, ◌≡◌, refl, sym, subst, ap, ◌∙◌, Bool, true, false, Option, none,
  some, List, [], ◌∷◌, ◌++◌, map, string_eq, if◌then◌else◌,
}
use mathlib.Core.List.{append-nil, append_assoc, map-append}
use backjob.Common.HashMap.{Iteration}
use backjob.Outcome.{Outcome, ok, err, panic, Exec, pure, continue}
use backjob.Chrono.{Chrono, Clock, later}
use backjob.JobInfo.{JobInfo, NewJobInfo, ReturnJobInfo, is_unscheduled}
use backjob.Storage.Trait
use backjob.Storage.Trait.{Storage}
use backjob.Storage.Spec.{Spec}
use backjob.Storage.Delivery.{Event, created, refused, handed, returned}
use backjob.Storage.Calls.{Calls, news, finds_nothing, finds, gives_back, done, after}
use backjob.Storage.Reliable.{IsReliable}
use backjob.Storage.Covers.{Covers, Covers-self, Covers-append}
use backjob.Storage.Trace.{seen, seen-append, Calls-append}
use backjob.Actix.{ActixStorage, storage_wrapper, map_err}
use backjob.Server.{
  Worker, Server, Message, new_job, returning_job, request_job, check_db, waiting, send, with_entry,
  on_storage, settle, serve_entry, serve_queue, handle_new_job, handle_returning_job, place,
  handle_request_job, drain_on, drain, next_entry, check_entries, handle_check_db, handle,
}

-- The jobs of messages to workers, as events.
abbrev pub sending : {V : Type 0} → List (Worker × JobInfo V) → List Event
sending = map (λ m. handed m.1.id)

-- What the store is told by a message.
abbrev pub receiving : {V : Type 0} → Message V → List Event
receiving (returning_job r) = returned r.id ∷ []
receiving (new_job _) = []
receiving (request_job _) = []
receiving check_db = []

-- There is an identifier left for the job of the message.
abbrev pub HasRoom : {V : Type 0} → Spec V → Message V → Type 0
HasRoom a (new_job _) = a.next_id + 1 < 2 ^ 64
HasRoom a (returning_job _) = Unit {0}
HasRoom a (request_job _) = Unit {0}
HasRoom a check_db = Unit {0}

module _ {V : Type 0} where
  -- What a request does, by its answer.
  abbrev pub asked : Option (JobInfo V) → List Event
  asked none = refused ∷ []
  asked (some job) = handed job.id ∷ []

module _ {S E F V : Type 0} (from : E → F) (chrono : Chrono) (store : Storage S E V)
    (view : S → Spec V) {Good : S → Type 0} (reliable : IsReliable chrono store Good) where
  -- From one server, whose store is good, to another, the store was called, and what is seen of the calls
  -- is `told` and the jobs sent, less the returns in which the store panicked.
  abbrev pub Told : List Event → Server S V → Server S V → Type 0
  Told told s t =
      Good s.storage
      → (events : List Event) × (new : List (Worker × JobInfo V)) × Calls chrono store view
          s.storage events t.storage
        × (t.sent ≡ s.sent ++ new)
        × Covers (seen events) (told ++ sending new)
        × Good t.storage

  abbrev pub wrapper : ActixStorage S F V
  wrapper = storage_wrapper from chrono store

  pub nothing : (s t : Server S V) → t.storage ≡ s.storage → t.sent ≡ s.sent → Told [] s t
  nothing s t same kept good = (
    [],
    [],
    subst (λ x. Calls chrono store view s.storage [] x) (sym same) done,
    kept ∙ sym (append-nil s.sent),
    refl,
    subst Good (sym same) good,
  )

  pub chain : (s t u : Server S V) (told : List Event) → Told told s t → Told [] t u → Told told s u
  chain s t u told one next good =
      let (first, a, calls, sent, h, still) = one good in
      let (second, b, more, further, k, last) = next still in
      (
        first ++ second,
        a ++ b,
        Calls-append calls more,
        further ∙ ap (λ l. l ++ b) sent ∙ append_assoc s.sent a b,
        subst (λ l. Covers l (told ++ sending (a ++ b))) (sym (seen-append first second))
            (subst (Covers (seen first ++ seen second))
              (append_assoc told (sending a) (sending b)
                ∙ ap (λ l. told ++ l) (sym (map-append (λ m. handed m.1.id) a b)))
              (Covers-append (seen first) (seen second) (told ++ sending a) (sending b) h k)),
        last,
      )

  pub asks :
      (clock : Clock) (queue : String) (runner_id : ℕ) (s : S)
      → Good s
      → (o : Option (JobInfo V)) × (t : S) × (wrapper.request_job clock queue runner_id s
          ≡ (ok o, t))
        × Calls chrono store view s (asked o) t
        × Good t
  asks clock queue runner_id s good =
      let (o, t, e, kept) = reliable.request_job clock queue runner_id s good in
      (o, t, ap (λ x. (map_err from x.0, x.1)) e, answered o t e, kept)
    where
      answered :
          (o : Option (JobInfo V)) (t : S)
          → Trait.request_job chrono store clock queue runner_id s ≡ (ok o, t)
          → Calls chrono store view s (asked o) t
      answered none t e = after refused (finds_nothing clock queue runner_id e) done
      answered (some job) t e =
          after (handed job.id) (finds clock queue runner_id job job.id refl e) done

  -- The worker is sent the job that the store answered with, or nothing is sent.
  pub answers :
      (o : Option (JobInfo V)) (worker : Worker) (s t : Server S V)
      → Calls chrono store view s.storage (asked o) t.storage
      → Good t.storage
      → t.sent ≡ s.sent ++ (elim o [ none ↦ [] | some job ↦ (worker, job) ∷ [] ])
      → Told [] s t
  answers none worker s t calls kept sent _ = (refused ∷ [], [], calls, sent, refl, kept)
  answers (some job) worker s t calls kept sent _ =
      (handed job.id ∷ [], (worker, job) ∷ [], calls, sent, Covers-self (handed job.id ∷ []), kept)
