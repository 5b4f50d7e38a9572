-- ===== src/Server/Cache.antt =====
-- jobs-actix/src/server.rs: which workers wait where, and what they are sent.
use backjob.Common.{
  String, ◌≡◌, sym, ap, ◌∙◌, ◌⊎◌, inl, inr, Option, none, some, List, [], ◌∷◌, ◌++◌, map, string_eq,
  arith,
}
use mathlib.Core.List.{Perm, perm_append_comm, append-nil, append_assoc}
use mathlib.Core.List.Perm
use backjob.Common.HashMap.{get-insert_self}
use backjob.Outcome.{Outcome, ok, err, panic, end_of, >>=-eq-ok}
use backjob.Chrono.{Clock, later}
use backjob.JobInfo.{JobInfo}
use backjob.Actix.{ActixStorage}
use backjob.Server.{
  Worker, Server, or_empty, waiting, with_entry, send, on_storage, drain_on, place,
  handle_request_job, drain,
}

waiting-with_entry :
    {S V : Type 0} (queue : String) (workers : List Worker) (storage : S) (s : Server S V)
    → waiting queue (with_entry queue workers storage s) ≡ workers
waiting-with_entry queue workers storage s = ap or_empty (get-insert_self queue workers s.cache)

place-cases :
    {S F V : Type 0} (store : ActixStorage S F V) (worker : Worker) (s t : Server S V)
    (o : Option (JobInfo V))
    → place store worker o s ≡ (ok tt, t)
    → ((job : JobInfo V) × (t.sent ≡ s.sent ++ (worker, job) ∷ []) × (t.cache ≡ s.cache))
      ⊎ ((t.sent ≡ s.sent) × (waiting worker.queue t ≡ waiting worker.queue s ++ worker ∷ []))
unfolding place
place-cases store worker s t (some job) h = inl (job, ground arith, ground arith)
place-cases {V = V} store worker s t none h =
    let e : with_entry worker.queue (waiting worker.queue s ++ worker ∷ []) s.storage s ≡ t =
      end_of h in
    inr (
      ap (λ (x : Server _ V). x.sent) (sym e),
      ap (waiting worker.queue) (sym e)
          ∙ waiting-with_entry worker.queue (waiting worker.queue s ++ worker ∷ []) s.storage s,
    )

module _ {S F V : Type 0} (store : ActixStorage S F V) (clock : Clock) (worker : Worker)
    (s t : Server S V) where
  -- A request that succeeds sends the worker one job, or puts it at the back of its queue's entry.
  pub handle_request_job-places :
      handle_request_job store clock worker s ≡ (ok tt, t)
      → ((job : JobInfo V) × (t.sent ≡ s.sent ++ (worker, job) ∷ []) × (t.cache ≡ s.cache))
        ⊎ ((t.sent ≡ s.sent) × (waiting worker.queue t ≡ waiting worker.queue s ++ worker ∷ []))
  unfolding handle_request_job
  handle_request_job-places h =
      let (o, u, p, q) =
        >>=-eq-ok (on_storage (store.request_job clock worker.queue worker.id)) (place store worker)
          s t tt h in
      let same : record s { storage = (store.request_job clock worker.queue worker.id s.storage).1 }
          ≡ u =
        end_of p in
      elim (place-cases store worker u t o q) [
        | inl (job, a, b) ↦ inl (
          job,
          a ∙ ap (λ (x : Server S V). x.sent ++ (worker, job) ∷ []) (sym same),
          b ∙ ap (λ (x : Server S V). x.cache) (sym same),
        )
        | inr (a, b) ↦ inr (
          a ∙ ap (λ (x : Server S V). x.sent) (sym same),
          b ∙ ap (λ (x : Server S V). waiting worker.queue x ++ worker ∷ []) (sym same),
        )
      ]

  -- A request that fails in the store forgets the worker: it is neither sent a job nor kept.
  pub handle_request_job-forgets :
      (e : F)
      → handle_request_job store clock worker s ≡ (err e, t)
      → (t.sent ≡ s.sent) × (t.cache ≡ s.cache)
  unfolding handle_request_job
  handle_request_job-forgets e h = ground arith

module _ {S F V : Type 0} (store : ActixStorage S F V) where
  -- The workers of a queue after the loop over them, with those that were sent a job meanwhile.
  abbrev pub Splits :
      List Worker → Server S V → Outcome F (Unit {0}) × List Worker × Server S V → Type 0
  Splits workers server (ok _, left, after) =
      (messages : List (Worker × JobInfo V)) × (after.sent ≡ server.sent ++ messages)
      × Perm workers (map (λ m. m.0) messages ++ left)
  Splits workers server (err _, left, after) = ⊥
  Splits workers server (panic, left, after) = Unit

  rotated :
      (worker : Worker) (rest : List Worker) (server : Server S V)
      → (messages : List (Worker × JobInfo V)) × (server.sent ≡ server.sent ++ messages)
        × Perm (worker ∷ rest) (map (λ m. m.0) messages ++ (rest ++ worker ∷ []))
  rotated worker rest server =
      ([], sym (append-nil server.sent), perm_append_comm (worker ∷ []) rest)

  Splits-cons :
      (worker : Worker) (job : JobInfo V) (rest : List Worker) (s : S) (server : Server S V)
      (x : Outcome F (Unit {0}) × List Worker × Server S V)
      → Splits rest (send worker job (record server { storage = s })) x
      → Splits (worker ∷ rest) server x
  Splits-cons worker job rest s server (ok _, left, after) (messages, e, p) = (
    (worker, job) ∷ messages,
    e ∙ append_assoc server.sent ((worker, job) ∷ []) messages,
    Perm.cons worker p,
  )
  Splits-cons worker job rest s server (err _, left, after) h = h
  Splits-cons worker job rest s server (panic, left, after) h = tt

  drain_on-Splits :
      (more : Server S V → Outcome F (Unit {0}) × List Worker × Server S V) (worker : Worker)
      (rest : List Worker) (x : Outcome F (Option (JobInfo V)) × S) (server : Server S V)
      → ((next : Server S V) → Splits rest next (more next))
      → Splits (worker ∷ rest) server (drain_on store more worker rest x server)
  unfolding drain_on
  drain_on-Splits more worker rest (ok (some job), s) server ih =
      Splits-cons worker job rest s server (more (send worker job (record server { storage = s })))
        (ih (send worker job (record server { storage = s })))
  drain_on-Splits more worker rest (ok none, s) server ih = rotated worker rest server
  drain_on-Splits more worker rest (err f, s) server ih = rotated worker rest server
  drain_on-Splits more worker rest (panic, s) server ih = tt

  -- The loop over the waiting workers of a queue loses none and doubles none, if it does not panic:
  -- each was sent one job or still waits.
  pub drain-Splits :
      (clock : Clock) (queue : String) (workers : List Worker) (server : Server S V)
      → Splits workers server (drain store clock queue workers server)
  unfolding drain
  drain-Splits clock queue [] server = ([], sym (append-nil server.sent), Perm.nil)
  drain-Splits clock queue (worker ∷ rest) server =
      drain_on-Splits (drain store (later 6 clock) queue rest) worker rest
        (store.request_job clock queue worker.id server.storage) server
        (drain-Splits (later 6 clock) queue rest)
