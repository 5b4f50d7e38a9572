-- ===== src/Samples/Threads.antt =====
-- Two threads over a store in memory and a check of the store.
use backjob.Common.{String, ◌≡◌, refl, [], ◌∷◌, string_eq, nat_eq}
use backjob.Common.HashMap
use backjob.Common.HashMap.{HashMap, newest_first, get, insert, remove}
use backjob.Outcome.{ok}
use backjob.JobInfo.{with_id, is_pending, is_ready, is_in_queue, run}
use backjob.Memory
use backjob.Memory.{
  Inner, generate_id, save_job, fetch_job_from_queue, queue_job, run_job, update_stats,
}
use backjob.Storage.Trait
use backjob.Server.{Server, Message, request_job, handle_check_db, handle, handle_request_job}
use backjob.Server
use backjob.Pool.{ServerConfig, Pool, Reach, here, further, handles, start}
use backjob.Pool.Matched.{AllMatched, Reach-AllMatched}
use backjob.Samples.Data.{chrono, clocks}
use backjob.Samples.Stores.{store, created_store}
use backjob.Samples.Actors.{never, actix_store, first, server}

abbrev waiting_server : Server (Inner String) String
waiting_server = record server {
  storage = created_store;
  cache = insert "images" (first ∷ []) HashMap.empty;
}

abbrev checked : Server (Inner String) String
checked = (handle_check_db actix_store newest_first clocks waiting_server).1

abbrev config : ServerConfig (Inner String)
config = record { storage = created_store; threads = 2 }

abbrev next : Server (Inner String) String
next = (handle actix_store newest_first clocks (request_job first) server).1

next_by : handle actix_store newest_first clocks (request_job first) server ≡ (ok tt, next)
unfolding handle handle_request_job Server.place Server.new Trait.request_job fetch_job_from_queue
    Trait.new_job generate_id save_job queue_job run_job update_stats Memory.new newest_first get
    insert remove HashMap.empty is_pending is_ready is_in_queue run with_id
next_by = refl

abbrev after_request : Pool (Inner String) String
after_request = record {
  storage = next.storage;
  caches = next.cache ∷ HashMap.empty ∷ [];
  sent = next.sent;
}

reached : Reach actix_store (start config) after_request
unfolding start Server.new
reached =
    further (request_job first) here
      (handles [] (HashMap.empty ∷ []) newest_first clocks (ok tt) server next (λ q. cc) next_by)

Reach-AllMatched_example : AllMatched after_request
Reach-AllMatched_example = Reach-AllMatched never chrono store config after_request reached
