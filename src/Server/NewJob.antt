-- ===== src/Server/NewJob.antt =====
-- jobs-actix/src/server.rs, the handler of `NewJob`: what becomes of the workers that wait.
use backjob.Common.{
  String, ◌≡◌, refl, sym, subst, ap, ◌∙◌, Bool, true, false, Option, none, some, List, [], ◌∷◌,
  ◌++◌, map, string_eq, Bool-cases, inl, inr, if◌then◌else◌, ◌==◌, beq_iff,
}
use mathlib.Core.List.{Perm, perm_append_comm, append-nil}
use mathlib.Core.List.Perm
use backjob.Common.HashMap.{get, insert, get-insert}
use backjob.Outcome.{Outcome, ok, err, panic, pure, end_of, >>=-eq-ok}
use backjob.Chrono.{Clock, later}
use backjob.JobInfo.{JobInfo, NewJobInfo, is_unscheduled}
use backjob.Actix.{ActixStorage}
use backjob.Server.{
  Worker, Server, or_empty, waiting, with_entry, send, on_storage, settle, serve_entry, serve_queue,
  handle_new_job,
}

module _ {S V : Type 0} where
  -- The workers of the queue `q` are still there or were sent a job each, if `queue` is the queue
  -- that jobs were sent from.
  abbrev pub Keeps : String → String → Server S V → Server S V → Type 0
  Keeps queue q s t =
      (messages : List (Worker × JobInfo V)) × (t.sent ≡ s.sent ++ messages)
      × Perm (waiting q s) ((if queue == q then map (λ m. m.0) messages else []) ++ waiting q t)

  entry-Keeps :
      (queue q : String) (s t : Server S V) (messages : List (Worker × JobInfo V))
      (workers : List Worker)
      → t.sent ≡ s.sent ++ messages
      → t.cache ≡ insert queue workers s.cache
      → Perm (waiting queue s) (map (λ m. m.0) messages ++ workers)
      → Keeps queue q s t
  entry-Keeps queue q s t messages workers sent cached kept =
      let entry = ap (get q) cached ∙ get-insert queue q workers s.cache in
      elim (Bool-cases (queue == q)) [
        | inl hit ↦
            let own : queue ≡ q = (beq_iff queue q).0 hit in
            let found : get q t.cache ≡ some workers = rw hit at entry in
            let now : workers ≡ waiting q t = ap or_empty (sym found) in
            let mine : Perm (waiting q s) (map (λ m. m.0) messages ++ workers) =
              subst (λ k. Perm (waiting k s) (map (λ m. m.0) messages ++ workers)) own kept in
            (
              messages,
              sent,
              rw hit (subst (λ ws. Perm (waiting q s) (map (λ m. m.0) messages ++ ws)) now mine),
            )
        | inr miss ↦
            let found : get q t.cache ≡ get q s.cache = rw miss at entry in
            let now : waiting q s ≡ waiting q t = ap or_empty (sym found) in
            (messages, sent, rw miss (subst (Perm (waiting q s)) now (Perm.refl (waiting q s))))
      ]

  same-Keeps : (queue q : String) (s : Server S V) → Keeps queue q s s
  same-Keeps queue q s = elim (Bool-cases (queue == q)) [
    | inl hit ↦ ([], sym (append-nil s.sent), rw hit (Perm.refl (waiting q s)))
    | inr miss ↦ ([], sym (append-nil s.sent), rw miss (Perm.refl (waiting q s)))
  ]

  -- A worker that goes to the back of its queue's entry is kept.
  back-Keeps :
      (queue q : String) (worker : Worker) (rest : List Worker) (x : S) (s : Server S V)
      → waiting queue s ≡ worker ∷ rest
      → Keeps queue q s (with_entry queue (rest ++ worker ∷ []) x s)
  back-Keeps queue q worker rest x s were =
      entry-Keeps queue q s (with_entry queue (rest ++ worker ∷ []) x s) [] (rest ++ worker ∷ [])
        (sym (append-nil s.sent)) refl
        (subst (λ ws. Perm ws (rest ++ worker ∷ [])) (sym were)
          (perm_append_comm (worker ∷ []) rest))

module _ {S F V : Type 0} (store : ActixStorage S F V) where
  settle-Keeps :
      (queue q : String) (worker : Worker) (rest : List Worker) (r : Outcome F (Option (JobInfo V)))
      (x : S) (s t : Server S V)
      → waiting queue s ≡ worker ∷ rest
      → settle store queue worker rest r x s ≡ (ok tt, t)
      → Keeps queue q s t
  unfolding settle
  settle-Keeps queue q worker rest (ok (some job)) x s t were h =
      subst (Keeps queue q s) (end_of h) (
        entry-Keeps queue q s (send worker job (with_entry queue rest x s)) ((worker, job) ∷ [])
          rest refl refl
          (subst (λ ws. Perm ws (worker ∷ rest)) (sym were) (Perm.refl (worker ∷ rest))))
  settle-Keeps queue q worker rest (ok none) x s t were h =
      subst (Keeps queue q s) (end_of h) (back-Keeps queue q worker rest x s were)
  settle-Keeps queue q worker rest (err e) x s t were h =
      subst (Keeps queue q s) (end_of h) (back-Keeps queue q worker rest x s were)
  settle-Keeps queue q worker rest panic x s t were h = absurd (cc)

  serve_entry-Keeps :
      (clock : Clock) (queue q : String) (workers : List Worker) (s t : Server S V)
      → waiting queue s ≡ workers
      → serve_entry store clock queue workers s ≡ (ok tt, t)
      → Keeps queue q s t
  unfolding serve_entry
  serve_entry-Keeps clock queue q [] s t were h = subst (Keeps queue q s) (end_of h) (
      entry-Keeps queue q s (with_entry queue [] s.storage s) [] [] (sym (append-nil s.sent)) refl
        (subst (λ ws. Perm ws []) (sym were) Perm.nil))
  serve_entry-Keeps clock queue q (worker ∷ rest) s t were h =
      settle-Keeps queue q worker rest (store.request_job clock queue worker.id s.storage).0
        (store.request_job clock queue worker.id s.storage).1 s t were h

  serve_if-Keeps :
      (ready : Bool) (clock : Clock) (queue q : String) (s t : Server S V)
      → (if ready then serve_queue store clock queue else pure tt) s ≡ (ok tt, t)
      → Keeps queue q s t
  unfolding serve_queue
  serve_if-Keeps true clock queue q s t h =
      serve_entry-Keeps clock queue q (waiting queue s) s t refl h
  serve_if-Keeps false clock queue q s t h =
      subst (Keeps queue q s) (end_of h) (same-Keeps queue q s)

  -- When a new job is handled with success, each worker that waited, in whatever queue, still waits
  -- there, or waited in the new job's queue and was sent a job: none is lost and none is doubled.
  pub handle_new_job-Keeps :
      (clock : Clock) (new : NewJobInfo V) (q : String) (s t : Server S V)
      → handle_new_job store clock new s ≡ (ok tt, t)
      → Keeps new.queue q s t
  unfolding handle_new_job
  handle_new_job-Keeps clock new q s t h =
      let (_, u, p, rest) =
        >>=-eq-ok (on_storage (store.new_job clock new))
          (λ _. if is_unscheduled new then serve_queue store (later 3 clock) new.queue else pure tt)
          s t tt h in
      let same : record s { storage = (store.new_job clock new s.storage).1 } ≡ u = end_of p in
      let (messages, sent, kept) =
        serve_if-Keeps (is_unscheduled new) (later 3 clock) new.queue q u t rest in
      (
        messages,
        sent ∙ ap (λ (x : Server S V). x.sent ++ messages) (sym same),
        subst
            (λ (x : Server S V).
              Perm (waiting q x)
                ((if new.queue == q then map (λ m. m.0) messages else []) ++ waiting q t))
            (sym same) kept,
      )
