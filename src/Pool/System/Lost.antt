-- ===== src/Pool/System/Lost.antt =====
-- jobs-actix/src/lib.rs and server.rs together: a worker whose request fails in the store is lost.
use backjob.Common.{
  ℕ, ◌+◌, ◌^◌, ◌≤◌, ◌≡◌, refl, sym, ap, ◌∙◌, String, List, [], ◌∷◌, ◌++◌, string_eq, nat_eq,
  beq_refl, arith,
}
use mathlib.Core.List.{append-nil}
use backjob.Common.HashMap.{HashMap, Iteration}
use backjob.Outcome.{err}
use backjob.Chrono.{Clock}
use backjob.JobInfo.{JobInfo, ReturnJobInfo}
use backjob.Actix.{ActixStorage}
use backjob.Server.{Worker, Server, Message, handle}
use backjob.Server.Cache.{handle_request_job-forgets}
use backjob.Server.Places.{occurs-append, held, occurs}
use backjob.Workers.{WorkerConfig}
use backjob.Workers.Numbers.{total}
use backjob.Pool.{ServerConfig, Pool, handles}
use backjob.Pool.System.{System, started, Move, asks, Moves}
use backjob.Pool.System.Exclusive.{
  places, held_by_all-append, Moves-places, served-append, one_place,
}

-- The threads, one of which runs the server.
abbrev pub with_server :
    {S V : Type 0}
    → List (HashMap String (List Worker))
    → List (HashMap String (List Worker))
    → Server S V
    → Pool S V
with_server earlier later server = record {
  storage = server.storage;
  caches = earlier ++ server.cache ∷ later;
  sent = server.sent;
}

module _ {S V : Type 0} (earlier later : List (HashMap String (List Worker)))
    (before behind : List Worker) (returns : List ReturnJobInfo)
    (working : List (Worker × JobInfo V)) where
  -- The request of a worker is on the way to the thread with the server.
  abbrev pub asking : Worker → Server S V → System S V
  asking worker server = record {
    pool = with_server earlier later server;
    requests = before ++ worker ∷ behind;
    returns = returns;
    working = working;
  }

  -- It arrived, and no job was sent.
  abbrev pub refused : Server S V → System S V
  refused server = record {
    pool = with_server earlier later server;
    requests = before ++ behind;
    returns = returns;
    working = working ++ [];
  }

-- From the start, if the numbers of the workers fit 64 bits, after any moves: if some thread handles
-- the request of a worker and an error of the store comes back, then this is a move of the program,
-- and after it and whatever moves come later, the worker is in no place, that is, it has no request
-- on the way, waits in no cache and has no job, so it is idle for good.
pub lost_for_good :
    {S F V State Cause : Type 0} (store : ActixStorage S F V) (order : Iteration String ℕ)
    (servers : ServerConfig S) (workers : WorkerConfig V State Cause)
    (walk : Iteration String (List Worker)) (clocks : ℕ → Clock)
    (earlier later : List (HashMap String (List Worker))) (server next : Server S V)
    (before behind : List Worker) (worker : Worker) (returns : List ReturnJobInfo)
    (working : List (Worker × JobInfo V)) (e : F) (u : System S V)
    → total (order.iter workers.queues) + 1000 ≤ 2 ^ 64
    → Moves State Cause store
        (started order servers workers)
        (asking earlier later before behind returns working worker server)
    → handle store walk clocks (Message.request_job worker) server ≡ (err e, next)
    → Moves State Cause store (refused earlier later before behind returns working next) u
    → Move State Cause store
        (asking earlier later before behind returns working worker server)
        (refused earlier later before behind returns working next)
      × (places worker.id u ≡ 0)
unfolding handle
lost_for_good {State = State} {Cause = Cause} store order servers workers walk clocks earlier later
      server next before behind worker returns working e u fits moves failed more =
    let (sent, cache) = handle_request_job-forgets store (clocks 0) worker server next e failed in
    let once = one_place store order servers workers _ worker.id fits moves in
    let least = Moves-places State Cause store worker.id _ u more in
    let same = ap (held worker.id) cache in
    let own : occurs worker.id (worker ∷ []) ≡ 1 = rw (beq_refl worker.id) refl in
    let all_ = occurs-append worker.id before (worker ∷ behind) in
    let gone = occurs-append worker.id before behind in
    let old = held_by_all-append worker.id earlier (server.cache ∷ later) in
    let now = held_by_all-append worker.id earlier (next.cache ∷ later) in
    let busy = served-append worker.id working [] in
    (
      asks before behind returns working [] worker (with_server earlier later server)
          (with_server earlier later next)
          (handles earlier later walk clocks (err e) server next (λ q. absurd (cc)) failed)
          (sent ∙ sym (append-nil server.sent)),
      omega (arith, once, least, all_, gone, old, now, busy, same, own),
    )
