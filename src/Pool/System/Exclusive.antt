-- ===== src/Pool/System/Exclusive.antt =====
-- jobs-actix/src/lib.rs, server.rs and worker.rs together: a worker has one job at a time.
use backjob.Common.{
  append-cancel, ℕ, zero, suc, ◌+◌, ◌^◌, ◌≤◌, ◌<◌, ◌≡◌, refl, sym, subst, ap, ◌∙◌, String, List, [],
  ◌∷◌, ◌++◌, map, string_eq, nat_eq, ◌==◌, if◌then◌else◌, arith,
}
use mathlib.Core.List.{map-append}
use backjob.Common.HashMap
use backjob.Common.HashMap.{HashMap, Iteration}
use backjob.Common.HashMap.Sum.{total-empty}
use backjob.Outcome.{Outcome}
use backjob.JobInfo.{JobInfo}
use backjob.Actix.{ActixStorage}
use backjob.Server.{Worker, Server, Message}
use backjob.Server.Places.{occurs, occurs-append, held, asking, served, Places}
use backjob.Server.Places.Walk.{handle-Places}
use backjob.Workers.{LocalWorker, WorkerConfig, handle_of, handle_process_job}
use backjob.Workers
use backjob.Workers.Numbers.{count_up, total, ids-start}
use backjob.Pool.{ServerConfig, Pool, Step, handles, stops, replicate}
use backjob.Pool
use backjob.Pool.System.{
  System, introduced, started, Move, asks, reports, creates, checks, works, Moves, begin, move,
}

-- How often a worker waits in the caches of all threads.
abbrev pub held_by_all : ℕ → List (HashMap String (List Worker)) → ℕ
held_by_all id [] = 0
held_by_all id (cache ∷ caches) = held id cache + held_by_all id caches

pub held_by_all-append :
    (id : ℕ) (a b : List (HashMap String (List Worker)))
    → held_by_all id (a ++ b) ≡ held_by_all id a + held_by_all id b
held_by_all-append id [] b = omega arith
held_by_all-append id (cache ∷ a) b = omega (arith, held_by_all-append id a b)

held_by_all-replicate : (id n : ℕ) → held_by_all id (replicate n HashMap.empty) ≡ 0
held_by_all-replicate id zero = refl
held_by_all-replicate id (suc n) =
    let e = total-empty String (occurs id) in omega (arith, e, held_by_all-replicate id n)

module _ {S F V : Type 0} (store : ActixStorage S F V) (id : ℕ) where
  -- A step of the threads: the worker of the request, the workers that wait and those that were sent
  -- jobs.
  Step-Places :
      (message : Message V) (p q : Pool S V) (new : List (Worker × JobInfo V))
      → Step store message p q
      → q.sent ≡ p.sent ++ new
      → occurs id (served new) + held_by_all id q.caches
        ≤ occurs id (asking message) + held_by_all id p.caches
  Step-Places message p q new (handles earlier later order clocks r server next runs h) sent =
      let (jobs, all_sent, le) =
        subst (λ (x : Outcome F (Unit {0}) × Server S V). Places id (asking message) server x.1) h
          (handle-Places store id order clocks message server) in
      let same = ap (λ l. occurs id (served l)) (append-cancel server.sent (sym all_sent ∙ sent)) in
      let old = held_by_all-append id earlier (server.cache ∷ later) in
      let now = held_by_all-append id earlier (next.cache ∷ later) in
      omega (arith, same, old, now, le)
  Step-Places message p q new (stops earlier later order clocks server next h) sent =
      let (jobs, all_sent, le) =
        subst (λ (x : Outcome F (Unit {0}) × Server S V). Places id (asking message) server x.1) h
          (handle-Places store id order clocks message server) in
      let same = ap (λ l. occurs id (served l)) (append-cancel server.sent (sym all_sent ∙ sent)) in
      let old = held_by_all-append id earlier (server.cache ∷ later) in
      let now = held_by_all-append id earlier later in omega (arith, same, old, now, le)

-- Where a worker is: its request is on the way, it waits in a cache, or it has a job.
abbrev pub places : {S V : Type 0} → ℕ → System S V → ℕ
places id s = occurs id s.requests + (held_by_all id s.pool.caches + occurs id (served s.working))

pub served-append :
    {V : Type 0} (id : ℕ) (a b : List (Worker × JobInfo V))
    → occurs id (served (a ++ b)) ≡ occurs id (served a) + occurs id (served b)
served-append id a b =
    ap (occurs id) (map-append (λ m. m.0) a b) ∙ occurs-append id (served a) (served b)

module _ {S F V : Type 0} (State Cause : Type 0) (store : ActixStorage S F V) (id : ℕ) where
  Move-places : (s t : System S V) → Move State Cause store s t → places id t ≤ places id s
  unfolding handle_process_job handle_of
  Move-places s t (asks before behind returns working new worker p q step sent) =
      let le = Step-Places store id (Message.request_job worker) p q new step sent in
      let old = occurs-append id before (worker ∷ behind) in
      let now = occurs-append id before behind in
      let busy = served-append id working new in omega (arith, le, old, now, busy)
  Move-places s t (reports before behind requests working new r p q step sent) =
      let le = Step-Places store id (Message.returning_job r) p q new step sent in
      let busy = served-append id working new in omega (arith, le, busy)
  Move-places s t (creates returns requests working new job p q step sent) =
      let le = Step-Places store id (Message.new_job job) p q new step sent in
      let busy = served-append id working new in omega (arith, le, busy)
  Move-places s t (checks returns requests working new p q step sent) =
      let le = Step-Places store id Message.check_db p q new step sent in
      let busy = served-append id working new in omega (arith, le, busy)
  Move-places s t (works before behind requests returns worker job p actor n same) =
      let again = (handle_process_job worker.addr n job actor).1 in
      let asked = occurs-append id requests (again ∷ []) in
      let own : occurs id (again ∷ []) ≡ occurs id (worker ∷ []) =
        ap (λ w. occurs id (w ∷ [])) same in
      let old = served-append id before ((worker, job) ∷ behind) in
      let now = served-append id before behind in omega (arith, asked, own, old, now)

  pub Moves-places : (s t : System S V) → Moves State Cause store s t → places id t ≤ places id s
  Moves-places s t begin = omega arith
  Moves-places s t (move {t = u} before last) =
      let le = Moves-places s u before in let more = Move-places u t last in omega (arith, le, more)

-- How often a number occurs.
abbrev times : ℕ → List ℕ → ℕ
times id [] = 0
times id (n ∷ rest) = (if n == id then 1 else 0) + times id rest

count_up-once :
    (id first n : ℕ)
    → (times id (count_up first n) ≤ 1) × (id < first → times id (count_up first n) ≡ 0)
count_up-once id first zero = (omega arith, λ h. refl)
count_up-once id first (suc n) =
    let (once, never) = count_up-once id (first + 1) n in
    (ground (arith, once, never), λ h. ground (arith, never))

introduced-times :
    {V State Cause : Type 0} (id addr : ℕ) (workers : List (LocalWorker V State Cause))
    → occurs id (introduced addr workers) ≡ times id (map (λ w. w.id) workers)
unfolding introduced handle_of
introduced-times id addr [] = refl
introduced-times id addr (worker ∷ others) = omega (arith, introduced-times id (addr + 1) others)

-- From the start, whatever messages arrive in whatever order, at whatever threads, and whichever
-- handlers fail or panic: a worker is in at most one place, that is, its request is on the way, or it
-- waits once in the cache of one thread, or it has one job, if the numbers of the workers fit 64 bits.
pub one_place :
    {S F V State Cause : Type 0} (store : ActixStorage S F V) (order : Iteration String ℕ)
    (servers : ServerConfig S) (workers : WorkerConfig V State Cause) (t : System S V) (id : ℕ)
    → total (order.iter workers.queues) + 1000 ≤ 2 ^ 64
    → Moves State Cause store (started order servers workers) t
    → places id t ≤ 1
unfolding started Pool.start
one_place store order servers workers t id fits moves =
    let le = Moves-places _ _ store id (started order servers workers) t moves in
    let intro = introduced-times id 0 (Workers.start order workers) in
    let numbers = ap (times id) (ids-start order workers fits) in
    let once = (count_up-once id 1000 (total (order.iter workers.queues))).0 in
    let idle = held_by_all-replicate id servers.threads in
    omega (arith, le, intro, numbers, once, idle)
