-- ===== src/Server/Store.antt =====
-- jobs-actix/src/storage.rs: the server's store is any store of the trait `Storage`.
use backjob.Common.{ℕ, String, some, List, string_eq}
use backjob.Common.HashMap.{Iteration}
use backjob.Chrono.{Chrono, Clock}
use backjob.Storage.Trait.{Storage, request_job}
use backjob.Storage.Fit.{request_job-answer}
use backjob.Actix.{storage_wrapper, map_err-eq-ok}
use backjob.Server.{Worker, Server, Message, handle}
use backjob.Server.Matched.{AnswersInQueue, IsMatched}
use backjob.Server.Check.{handle-IsMatched}

module _ {S E F V : Type 0} (from : E → F) (chrono : Chrono) (store : Storage S E V) where
  -- The store behind the wrapper answers in the queue that it is asked for.
  storage_wrapper-AnswersInQueue : AnswersInQueue (storage_wrapper from chrono store)
  storage_wrapper-AnswersInQueue clock queue runner_id job s t h =
      (request_job-answer chrono store clock queue runner_id job s t (
        map_err-eq-ok from (request_job chrono store clock queue runner_id s).0
          (request_job chrono store clock queue runner_id s).1 t (some job) h)).0

  -- Over any implementation of the trait `Storage`: whatever message the server handles, and
  -- whether or not the handler succeeds, a waiting worker stays in the entry of its own queue, and
  -- every job sent so far is of its worker's queue, if this was so before.
  pub handle-storage_wrapper-IsMatched :
      (order : Iteration String (List Worker)) (clocks : ℕ → Clock) (message : Message V)
      (server : Server S V)
      → IsMatched server
      → IsMatched (handle (storage_wrapper from chrono store) order clocks message server).1
  handle-storage_wrapper-IsMatched order clocks message server v =
      handle-IsMatched (storage_wrapper from chrono store) storage_wrapper-AnswersInQueue order
        clocks message server v
