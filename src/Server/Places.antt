-- ===== src/Server/Places.antt =====
-- jobs-actix/src/server.rs: in how many places a worker is, waiting in the cache or sent a job, before
-- and after a message.
pub mod Walk
use backjob.Common.{
  ℕ, suc, ◌+◌, ◌≤◌, String, ◌≡◌, refl, sym, subst, ap, ◌∙◌, Bool, true, false, Option, none, some,
  List, [], ◌∷◌, ◌++◌, map, All, nat_eq, string_eq, ◌==◌, if◌then◌else◌, arith, Bool-cases, inl,
  inr, Option-cases,
}
use mathlib.Core.List.{Memᴰ, append-nil, append_assoc, map-append}
use backjob.Common.HashMap.{HashMap, Iteration, IsDistinct, get}
use backjob.Common.HashMap.Sum.{total, value, total-insert}
use backjob.Outcome.{Outcome, ok, err, panic, Exec, pure, continue}
use backjob.Chrono.{Clock, later}
use backjob.JobInfo.{JobInfo, NewJobInfo, ReturnJobInfo, is_unscheduled}
use backjob.Actix.{ActixStorage}
use backjob.Server.{
  Worker, Server, Message, new_job, returning_job, request_job, check_db, or_empty, waiting, send,
  with_entry, settle, serve_entry, serve_queue, handle_new_job, handle_returning_job, place,
  handle_request_job, drain_on, drain, next_entry, check_entries, handle_check_db, handle,
}

-- How often the worker with a number occurs.
abbrev pub occurs : ℕ → List Worker → ℕ
occurs id [] = 0
occurs id (worker ∷ rest) = (if worker.id == id then 1 else 0) + occurs id rest

pub occurs-append : (id : ℕ) (a b : List Worker) → occurs id (a ++ b) ≡ occurs id a + occurs id b
occurs-append id [] b = omega arith
occurs-append id (worker ∷ a) b = omega (arith, occurs-append id a b)

-- How often it waits in a cache.
abbrev pub held : ℕ → HashMap String (List Worker) → ℕ
held id cache = total (occurs id) cache

-- The worker that a message is about.
abbrev pub asking : {V : Type 0} → Message V → List Worker
asking (request_job worker) = worker ∷ []
asking (new_job _) = []
asking (returning_job _) = []
asking check_db = []

abbrev pub served : {V : Type 0} → List (Worker × JobInfo V) → List Worker
served = map (λ m. m.0)

value-waiting : (id : ℕ) (o : Option (List Worker)) → value (occurs id) o ≡ occurs id (or_empty o)
value-waiting id none = refl
value-waiting id (some workers) = refl

module _ {S V : Type 0} (id : ℕ) where
  -- From one server to another, which was given workers: jobs were sent, and no worker is in more
  -- places.
  abbrev pub Places : List Worker → Server S V → Server S V → Type 0
  Places given s t =
      (new : List (Worker × JobInfo V)) × (t.sent ≡ s.sent ++ new)
      × (occurs id (served new) + held id t.cache ≤ occurs id given + held id s.cache)

  -- The entry of a queue is replaced.
  pub held-with_entry :
      (queue : String) (workers : List Worker) (storage : S) (s : Server S V)
      → held id (with_entry queue workers storage s).cache + occurs id (waiting queue s)
        ≡ held id s.cache + occurs id workers
  held-with_entry queue workers storage s =
      let e = total-insert (occurs id) queue workers s.cache in
      let w = value-waiting id (get queue s.cache) in omega (arith, e, w)

  pub stays :
      (given : List Worker) (s t : Server S V)
      → t.sent ≡ s.sent
      → t.cache ≡ s.cache
      → Places given s t
  stays given s t sent cache =
      let same = ap (held id) cache in ([], sent ∙ sym (append-nil s.sent), omega (arith, same))

  pub chain :
      (given : List Worker) (s t u : Server S V)
      → Places given s t
      → Places [] t u
      → Places given s u
  chain given s t u (a, sent, le) (b, more, le_more) =
      let parts =
        ap (occurs id) (map-append (λ (m : Worker × JobInfo V). m.0) a b)
        ∙ occurs-append id (served a) (served b) in
      (
        a ++ b,
        more ∙ ap (λ l. l ++ b) sent ∙ append_assoc s.sent a b,
        omega (arith, parts, le, le_more),
      )

module _ {S F V : Type 0} (store : ActixStorage S F V) (id : ℕ) where
  settle-Places :
      (queue : String) (worker : Worker) (rest : List Worker) (r : Outcome F (Option (JobInfo V)))
      (t : S) (server : Server S V)
      → waiting queue server ≡ worker ∷ rest
      → Places id [] server (settle store queue worker rest r t server).1
  unfolding settle
  settle-Places queue worker rest (ok (some job)) t server w =
      let e = held-with_entry id queue rest t server in
      let were = ap (occurs id) w in ((worker, job) ∷ [], refl, omega (arith, e, were))
  settle-Places queue worker rest (ok none) t server w =
      let e = held-with_entry id queue (rest ++ worker ∷ []) t server in
      let were = ap (occurs id) w in
      let now = occurs-append id rest (worker ∷ []) in
      ([], sym (append-nil server.sent), omega (arith, e, were, now))
  settle-Places queue worker rest (err _) t server w =
      let e = held-with_entry id queue (rest ++ worker ∷ []) t server in
      let were = ap (occurs id) w in
      let now = occurs-append id rest (worker ∷ []) in
      ([], sym (append-nil server.sent), omega (arith, e, were, now))
  settle-Places queue worker rest panic t server w =
      let e = held-with_entry id queue rest t server in
      let were = ap (occurs id) w in ([], sym (append-nil server.sent), omega (arith, e, were))

  serve_entry-Places :
      (clock : Clock) (queue : String) (workers : List Worker) (server : Server S V)
      → waiting queue server ≡ workers
      → Places id [] server (serve_entry store clock queue workers server).1
  unfolding serve_entry
  serve_entry-Places clock queue [] server w =
      let e = held-with_entry id queue [] server.storage server in
      ([], sym (append-nil server.sent), omega (arith, e))
  serve_entry-Places clock queue (worker ∷ rest) server w =
      let (r, t) = store.request_job clock queue worker.id server.storage in
      settle-Places queue worker rest r t server w

  serve_if :
      (ready : Bool) (clock : Clock) (queue : String) (r : Outcome F ℕ) (server : Server S V)
      → Places id [] server
          (continue r (λ _. if ready then serve_queue store clock queue else pure tt) server).1
  unfolding serve_queue
  serve_if true clock queue (ok _) server =
      serve_entry-Places clock queue (waiting queue server) server refl
  serve_if false clock queue (ok _) server = stays id [] server server refl refl
  serve_if ready clock queue (err e) server = stays id [] server server refl refl
  serve_if ready clock queue panic server = stays id [] server server refl refl

  pub handle_new_job-Places :
      (clock : Clock) (new : NewJobInfo V) (server : Server S V)
      → Places id [] server (handle_new_job store clock new server).1
  unfolding handle_new_job
  handle_new_job-Places clock new server =
      let (r, t) = store.new_job clock new server.storage in
      serve_if (is_unscheduled new) (later 3 clock) new.queue r (record server { storage = t })

  place-Places :
      (worker : Worker) (r : Outcome F (Option (JobInfo V))) (server : Server S V)
      → Places id (worker ∷ []) server (continue r (place store worker) server).1
  unfolding place
  place-Places worker (ok (some job)) server = ((worker, job) ∷ [], refl, omega arith)
  place-Places worker (ok none) server =
      let behind = waiting worker.queue server ++ worker ∷ [] in
      let e = held-with_entry id worker.queue behind server.storage server in
      let now = occurs-append id (waiting worker.queue server) (worker ∷ []) in
      ([], sym (append-nil server.sent), omega (arith, e, now))
  place-Places worker (err e) server = ([], sym (append-nil server.sent), omega arith)
  place-Places worker panic server = ([], sym (append-nil server.sent), omega arith)

  pub handle_request_job-Places :
      (clock : Clock) (worker : Worker) (server : Server S V)
      → Places id (worker ∷ []) server (handle_request_job store clock worker server).1
  unfolding handle_request_job
  handle_request_job-Places clock worker server =
      let (r, t) = store.request_job clock worker.queue worker.id server.storage in
      place-Places worker r (record server { storage = t })

  -- The loop over the workers of a queue leaves the cache, and each worker is sent a job or left.
  abbrev pub Drains :
      List Worker → Server S V → Outcome F (Unit {0}) × List Worker × Server S V → Type 0
  Drains workers s x =
      (new : List (Worker × JobInfo V)) × (x.2.sent ≡ s.sent ++ new)
      × (x.2.cache ≡ s.cache)
      × (occurs id (served new) + occurs id x.1 ≤ occurs id workers)

  drain_on-Drains :
      (more : Server S V → Outcome F (Unit {0}) × List Worker × Server S V) (worker : Worker)
      (rest : List Worker) (x : Outcome F (Option (JobInfo V)) × S) (server : Server S V)
      → ((next : Server S V) → Drains rest next (more next))
      → Drains (worker ∷ rest) server (drain_on store more worker rest x server)
  unfolding drain_on
  drain_on-Drains more worker rest (ok (some job), t) server ih =
      let (new, sent, cache, le) = ih (send worker job (record server { storage = t })) in
      (
        (worker, job) ∷ new,
        sent ∙ append_assoc server.sent ((worker, job) ∷ []) new,
        cache,
        omega (arith, le),
      )
  drain_on-Drains more worker rest (ok none, t) server ih =
      let now = occurs-append id rest (worker ∷ []) in
      ([], sym (append-nil server.sent), refl, omega (arith, now))
  drain_on-Drains more worker rest (err e, t) server ih =
      let now = occurs-append id rest (worker ∷ []) in
      ([], sym (append-nil server.sent), refl, omega (arith, now))
  drain_on-Drains more worker rest (panic, t) server ih =
      ([], sym (append-nil server.sent), refl, omega arith)

  pub drain-Drains :
      (clock : Clock) (queue : String) (workers : List Worker) (server : Server S V)
      → Drains workers server (drain store clock queue workers server)
  unfolding drain
  drain-Drains clock queue [] server = ([], sym (append-nil server.sent), refl, omega arith)
  drain-Drains clock queue (worker ∷ rest) server =
      drain_on-Drains (drain store (later 6 clock) queue rest) worker rest
        (store.request_job clock queue worker.id server.storage) server
        (drain-Drains (later 6 clock) queue rest)

  -- A round of the walk, up to where the entry is written.
  pub entry-Places :
      (queue : String) (workers : List Worker) (server : Server S V)
      (x : Outcome F (Unit {0}) × List Worker × Server S V)
      → waiting queue server ≡ workers
      → Drains workers server x
      → Places id [] server (with_entry queue x.1 x.2.storage x.2)
  entry-Places queue workers server x w (new, sent, cache, le) =
      let e = held-with_entry id queue x.1 x.2.storage x.2 in
      let same = ap (held id) cache in
      let were = ap (occurs id) (ap (λ c. or_empty (get queue c)) cache ∙ w) in
      (new, sent, omega (arith, e, same, were, le))
