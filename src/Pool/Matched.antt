-- ===== src/Pool/Matched.antt =====
-- jobs-actix/src/lib.rs: over any order of messages and threads, each worker waits for its own queue,
-- and is only sent jobs of its own queue.
use backjob.Common.{
  ℕ, zero, suc, String, ◌≡◌, subst, some, List, [], ◌∷◌, ◌++◌, All, All-append, string_eq,
}
use backjob.Common.HashMap
use backjob.Common.HashMap.{HashMap, get, get-empty}
use backjob.Outcome.{Outcome}
use backjob.Chrono.{Chrono}
use backjob.Storage.Trait.{Storage}
use backjob.Actix.{storage_wrapper}
use backjob.Server.{Worker, Server, Message}
use backjob.Server.Matched.{AllOf, IsMatched}
use backjob.Server.Store.{handle-storage_wrapper-IsMatched}
use backjob.Pool.{ServerConfig, Pool, replicate, start, Step, handles, stops, Reach, here, further}

-- The workers of a cache wait in the entries of their own queues.
abbrev pub IsFiled : HashMap String (List Worker) → Type 0
IsFiled cache =
    (queue : String) (workers : List Worker) → get queue cache ≡ some workers → AllOf queue workers

abbrev pub AllMatched : {S V : Type 0} → Pool S V → Type 0
AllMatched p = All IsFiled p.caches × All (λ m. m.1.queue ≡ m.0.queue) p.sent

All-middle :
    {A : Type 0} (P : A → Type 0) (xs ys : List A) (a : A)
    → All P (xs ++ a ∷ ys)
    → All P xs × P a × All P ys
All-middle P [] ys a h = (tt, h.0, h.1)
All-middle P (x ∷ xs) ys a h = let (l, m, r) = All-middle P xs ys a (h.1) in ((h.0, l), m, r)

All-replicate : {A : Type 0} (P : A → Type 0) (n : ℕ) (a : A) → P a → All P (replicate n a)
All-replicate P zero a h = tt
All-replicate P (suc n) a h = (h, All-replicate P n a h)

module _ {S E F V : Type 0} (from : E → F) (chrono : Chrono) (store : Storage S E V) where
  Step-AllMatched :
      (message : Message V) (p q : Pool S V)
      → AllMatched p
      → Step (storage_wrapper from chrono store) message p q
      → AllMatched q
  Step-AllMatched message p q v (handles earlier later order clocks r server next runs h) =
      let (before, mine, behind) = All-middle IsFiled earlier later server.cache (v.0) in
      let kept : IsMatched next =
        subst (λ (x : Outcome F (Unit {0}) × Server S V). IsMatched x.1) h
          (handle-storage_wrapper-IsMatched from chrono store order clocks message server
            (record { filed = mine; fitting = v.1 })) in
      (All-append IsFiled earlier (next.cache ∷ later) before (kept.filed, behind), kept.fitting)
  Step-AllMatched message p q v (stops earlier later order clocks server next h) =
      let (before, mine, behind) = All-middle IsFiled earlier later server.cache (v.0) in
      let kept : IsMatched next =
        subst (λ (x : Outcome F (Unit {0}) × Server S V). IsMatched x.1) h
          (handle-storage_wrapper-IsMatched from chrono store order clocks message server
            (record { filed = mine; fitting = v.1 })) in
      (All-append IsFiled earlier later before behind, kept.fitting)

  start-AllMatched : (config : ServerConfig S) → AllMatched (start {V = V} config)
  unfolding start
  start-AllMatched config = (
    All-replicate IsFiled config.threads HashMap.empty
        (λ queue workers h. let e = get-empty {V = List Worker} queue in absurd (cc)),
    tt,
  )

  -- Over any implementation of the trait `Storage` and from any configuration: whatever messages any of
  -- the threads handled in whatever order, also when some handlers failed or panicked, the waiting
  -- workers of each thread wait in the entries of their own queues, and every job that was sent is of
  -- its worker's queue.
  pub Reach-AllMatched :
      (config : ServerConfig S) (p : Pool S V)
      → Reach (storage_wrapper from chrono store) (start config) p
      → AllMatched p
  Reach-AllMatched config p here = start-AllMatched config
  Reach-AllMatched config p (further {q} message before step) =
      Step-AllMatched message q p (Reach-AllMatched config q before) step
