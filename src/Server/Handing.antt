-- ===== src/Server/Handing.antt =====
-- jobs-actix/src/server.rs over jobs-core/src/storage.rs, `memory_storage`: a new job puts a waiting
-- worker to work.
use backjob.Common.{
  ℕ, ◌+◌, ◌^◌, ◌<◌, String, ◌≡◌, refl, sym, ap, ◌∙◌, Bool, true, some, List, [], ◌∷◌, ◌++◌,
  string_eq, nat_eq, arith, Bool-cases, inl, inr, if◌then◌else◌, ◌==◌, beq_refl,
}
use backjob.Common.HashMap.{Iteration, get-insert_self}
use backjob.Outcome.{ok, pure}
use backjob.Chrono.{Chrono, Clock, later}
use backjob.JobInfo.{JobInfo, NewJobInfo, with_id, is_ready, is_unscheduled}
use backjob.Storage.Trait.{new_job, request_job}
use backjob.Storage.Spec.{Spec}
use backjob.Storage.Valid.{IsValid}
use backjob.Storage.Refines.{new_job-Spec}
use backjob.Storage.Delivery.{Event}
use backjob.Storage.Calls.{news, done, after, Calls-IsValid}
use backjob.Memory.{Inner, Never, generate_id, save_job, queue_job, update_stats, storage}
use backjob.Memory.View.{view, storage-Laws}
use backjob.Memory.Requests.{request_job-finds}
use backjob.Actix.{storage_wrapper, map_err}
use backjob.Server.{
  Worker, Server, or_empty, waiting, send, with_entry, handle_new_job, serve_queue, serve_entry,
  settle,
}

module _ {V : Type 0} (order : Iteration ℕ String) (chrono : Chrono) (clock : Clock)
    (new : NewJobInfo V) where
  abbrev pub stored : Inner V → Inner V
  stored s = (new_job chrono (storage order) clock new s).1

  pub created : (s : Inner V) → new_job chrono (storage order) clock new s ≡ (ok s.count, stored s)
  unfolding new_job generate_id save_job queue_job update_stats
  created s = refl

  pub stored-IsValid :
      (s : Inner V) → IsValid (view s) → s.count + 1 < 2 ^ 64 → IsValid (view (stored s))
  stored-IsValid s v room =
      Calls-IsValid (storage-Laws order) tt v
        (after (Event.created s.count) (news clock new s.count room (created s)) done)

  pub stored-queued :
      (s : Inner V)
      → s.count + 1 < 2 ^ 64
      → (k : ℕ)
      → (view (stored s)).queued k ≡ (if s.count == k then some new.queue else (view s).queued k)
  stored-queued s room k =
      let (_, n, _, e) =
        new_job-Spec (storage-Laws order) chrono clock new s (stored s) s.count room (created s) in
      ap (λ (a : Spec V). a.queued k) e

  pub stored-jobs :
      (s : Inner V)
      → s.count + 1 < 2 ^ 64
      → (k : ℕ)
      → (view (stored s)).jobs k
        ≡ (if s.count == k then some (with_id (clock 0) s.count new) else (view s).jobs k)
  unfolding with_id
  stored-jobs s room k =
      let (_, n, _, e) =
        new_job-Spec (storage-Laws order) chrono clock new s (stored s) s.count room (created s) in
      ap (λ (a : Spec V). a.jobs k) e

  all_ready :
      (s : Inner V) (t : ℕ)
      → s.count + 1 < 2 ^ 64
      → is_unscheduled new ≡ true
      → ((i : ℕ) (j : JobInfo V)
          → (view s).queued i ≡ some new.queue
          → (view s).jobs i ≡ some j
          → is_ready t j ≡ true)
      → (i : ℕ) (j : JobInfo V) → (view (stored s)).queued i ≡ some new.queue
      → (view (stored s)).jobs i ≡ some j
      → is_ready t j ≡ true
  unfolding is_unscheduled is_ready with_id
  all_ready s t room at_once ready i j q h =
      let q' : (if s.count == i then some new.queue else (view s).queued i) ≡ some new.queue =
        sym (stored-queued s room i) ∙ q in
      let h' : (if s.count == i then some (with_id (clock 0) s.count new) else (view s).jobs i)
          ≡ some j =
        sym (stored-jobs s room i) ∙ h in
      elim (Bool-cases (s.count == i)) [
        | inl hit ↦
            let same : some (with_id (clock 0) s.count new) ≡ some j = rw hit at h' in ground arith
        | inr miss ↦ ready i j (rw miss at q') (rw miss at h')
      ]

  -- The new job is stored, and then the store is asked for the worker that waited longest.
  pub handle_new_job-asks :
      {F : Type 0} (from : Never → F) (worker : Worker) (rest : List Worker)
      (s : Server (Inner V) V)
      → IsValid (view s.storage)
      → s.storage.count + 1 < 2 ^ 64
      → is_unscheduled new ≡ true
      → waiting new.queue s ≡ worker ∷ rest
      → ((i : ℕ) (j : JobInfo V)
          → (view s.storage).queued i ≡ some new.queue
          → (view s.storage).jobs i ≡ some j
          → is_ready (clock 4) j ≡ true)
      → (job : JobInfo V) × (u : Inner V) × (request_job chrono
            (storage order)
            (later 3 clock)
            new.queue
            worker.id
            (stored s.storage)
          ≡ (ok (some job), u))
        × (handle_new_job (storage_wrapper from chrono (storage order)) clock new s
            ≡ (ok tt, send worker job (with_entry new.queue rest u s)))
  unfolding handle_new_job serve_queue serve_entry settle new_job generate_id save_job queue_job
      update_stats
  handle_new_job-asks {F} from worker rest s v room at_once were ready =
      let actix = storage_wrapper from chrono (storage order) in
      let first : (view (stored s.storage)).queued s.storage.count ≡ some new.queue =
        stored-queued s.storage room s.storage.count ∙ rw (beq_refl s.storage.count) refl in
      let (job, u, _, found) =
        request_job-finds order chrono (later 3 clock) new.queue worker.id s.storage.count
          (stored s.storage) (stored-IsValid s.storage v room) first
          (all_ready s.storage (clock 4) room at_once ready) in
      let next = record s { storage = stored s.storage } in
      let served : serve_queue actix (later 3 clock) new.queue next
          ≡ (ok tt, send worker job (with_entry new.queue rest u s)) =
        ap (λ ws. serve_entry actix (later 3 clock) new.queue ws next) were
        ∙ ap (λ x. settle actix new.queue worker rest (map_err from x.0) x.1 next) found in
      (
        job,
        u,
        found,
        ap (λ (b : Bool). (if b then serve_queue actix (later 3 clock) new.queue else pure tt) next)
              at_once
            ∙ served,
      )

  -- Over a valid store in memory with identifiers left: if a worker waits for the queue of a new job
  -- that is not scheduled, and all jobs that wait in the queue are ready, then handling the new job
  -- succeeds, and sends a job to the worker that waited longest.
  pub handle_new_job-sends :
      {F : Type 0} (from : Never → F) (worker : Worker) (rest : List Worker)
      (s : Server (Inner V) V)
      → IsValid (view s.storage)
      → s.storage.count + 1 < 2 ^ 64
      → is_unscheduled new ≡ true
      → waiting new.queue s ≡ worker ∷ rest
      → ((i : ℕ) (j : JobInfo V)
          → (view s.storage).queued i ≡ some new.queue
          → (view s.storage).jobs i ≡ some j
          → is_ready (clock 4) j ≡ true)
      → (job : JobInfo V) × (t : Server (Inner V) V) × (handle_new_job
            (storage_wrapper from chrono (storage order))
            clock
            new
            s
          ≡ (ok tt, t))
        × (t.sent ≡ s.sent ++ (worker, job) ∷ [])
        × (waiting new.queue t ≡ rest)
  handle_new_job-sends {F} from worker rest s v room at_once were ready =
      let (job, u, _, handled) = handle_new_job-asks from worker rest s v room at_once were ready in
      (
        job,
        send worker job (with_entry new.queue rest u s),
        handled,
        refl,
        ap or_empty (get-insert_self new.queue rest s.cache),
      )
