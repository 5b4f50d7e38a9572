-- ===== src/Server/Places/Walk.antt =====
-- jobs-actix/src/server.rs: in how many places a worker is, over the walk over all queues and over any
-- message.
use backjob.Common.{ℕ, suc, String, ◌≡◌, refl, ap, ◌∙◌, false, List, [], ◌∷◌, string_eq, ◌==◌}
use mathlib.Core.List.{Memᴰ}
use backjob.Common.HashMap.{Iteration, IsDistinct, get, get-insert}
use backjob.Outcome.{Outcome, ok, err, panic, Exec}
use backjob.Chrono.{Clock}
use backjob.Actix.{ActixStorage}
use backjob.Server.{
  Worker, Server, Message, new_job, returning_job, request_job, check_db, or_empty, waiting,
  with_entry, handle_returning_job, drain, next_entry, check_entries, handle_check_db, handle,
}
use backjob.Server.Places.{
  Places, Drains, asking, stays, chain, handle_new_job-Places, handle_request_job-Places,
  drain-Drains, entry-Places,
}

module _ {S F V : Type 0} (store : ActixStorage S F V) (id : ℕ) where
  next_entry-Places :
      (more : Exec (Server S V) F (Unit {0})) (queue : String)
      (x : Outcome F (Unit {0}) × List Worker × Server S V) (server : Server S V)
      → (let next = with_entry queue x.1 x.2.storage x.2 in
          Places id [] server next
          → Places id [] next (more next).1
          → Places id [] server (next_entry store more queue x).1)
  unfolding next_entry
  next_entry-Places more queue (ok _, left, after) server p ih =
      let next = with_entry queue left after.storage after in
      chain id [] server next (more next).1 p ih
  next_entry-Places more queue (err e, left, after) server p ih = p
  next_entry-Places more queue (panic, left, after) server p ih = p

  waiting_elsewhere :
      (queue k : String) (workers : List Worker) (server : Server S V)
      (x : Outcome F (Unit {0}) × List Worker × Server S V)
      → Drains store id workers server x
      → (queue == k) ≡ false
      → waiting k (with_entry queue x.1 x.2.storage x.2) ≡ waiting k server
  waiting_elsewhere queue k workers server x (_, _, cache, _) miss =
      let entry = get-insert queue k x.1 x.2.cache in
      let same : get k (with_entry queue x.1 x.2.storage x.2).cache ≡ get k x.2.cache =
        rw miss at entry in
      ap or_empty (same ∙ ap (get k) cache)

  check_entries-Places :
      (clocks : ℕ → Clock) (entries : List (String × List Worker)) (server : Server S V)
      → IsDistinct entries
      → ((k : String) (ws : List Worker) → Memᴰ (k, ws) entries → waiting k server ≡ ws)
      → Places id [] server (check_entries store clocks entries server).1
  unfolding check_entries
  check_entries-Places clocks [] server apart were = stays id [] server server refl refl
  check_entries-Places clocks ((queue, workers) ∷ more) server apart were =
      let x = drain store (clocks 0) queue workers server in
      let drains = drain-Drains store id (clocks 0) queue workers server in
      let next = with_entry queue x.1 x.2.storage x.2 in
      next_entry-Places (check_entries store (λ n. clocks (suc n)) more) queue x server
        (entry-Places store id queue workers server x (were queue workers (Memᴰ.head refl)) drains)
        (check_entries-Places (λ n. clocks (suc n)) more next (apart.1)
          (λ k ws m.
            waiting_elsewhere queue k workers server x drains (apart.0 k ws m)
            ∙ were k ws (Memᴰ.tail m)))

  -- Whatever message the server handles, and whether or not its handler succeeds: no worker is in more
  -- places than before, counting the request that came in and the jobs that were sent.
  pub handle-Places :
      (order : Iteration String (List Worker)) (clocks : ℕ → Clock) (message : Message V)
      (server : Server S V)
      → Places id (asking message) server (handle store order clocks message server).1
  unfolding handle handle_check_db handle_returning_job
  handle-Places order clocks (new_job new) server =
      handle_new_job-Places store id (clocks 0) new server
  handle-Places order clocks (returning_job r) server =
      stays id [] server (handle store order clocks (returning_job r) server).1 refl refl
  handle-Places order clocks (request_job worker) server =
      handle_request_job-Places store id (clocks 0) worker server
  handle-Places order clocks check_db server =
      check_entries-Places clocks (order.iter server.cache) server (order.unique server.cache)
        (λ k ws m. ap or_empty (order.sound k ws server.cache m))
