-- ===== src/Server/CheckDb.antt =====
-- jobs-actix/src/server.rs, the handler of `CheckDb`: what becomes of the workers that wait, over the
-- walk over all queues.
use backjob.Common.{String, ◌≡◌, List, ◌++◌, map, string_eq}
use mathlib.Core.List.{Perm}
use mathlib.Core.List.Perm
use backjob.Common.HashMap.{insert}
use backjob.Outcome.{Outcome}
use backjob.JobInfo.{JobInfo}
use backjob.Actix.{ActixStorage}
use backjob.Server.{Worker, Server, waiting}

module _ {S F V : Type 0} (store : ActixStorage S F V) where
  -- The workers that waited for a queue wait for it still, or were each sent one of the jobs `mine`.
  abbrev pub Served : String → Server S V → Server S V → Type 0
  Served queue s t =
      (before : List (Worker × JobInfo V)) × (mine : List (Worker × JobInfo V)) × (behind : List
        (Worker × JobInfo V))
      × (t.sent ≡ s.sent ++ (before ++ (mine ++ behind)))
      × Perm (waiting queue s) (map (λ m. m.0) mine ++ waiting queue t)

  -- What a walk over other queues leaves of a queue.
  abbrev Untouched : String → Server S V → Server S V → Type 0
  Untouched queue s t =
      (messages : List (Worker × JobInfo V)) × (t.sent ≡ s.sent ++ messages)
      × (waiting queue t ≡ waiting queue s)

  -- A round of the walk, on a queue whose workers are those of the cache.
  Round : String → List Worker → Server S V → Server S V → Type 0
  Round queue workers s t =
      (left : List Worker) × (messages : List (Worker × JobInfo V)) × (t.sent ≡ s.sent ++ messages)
      × Perm workers (map (λ m. m.0) messages ++ left)
      × (t.cache ≡ insert queue left s.cache)
