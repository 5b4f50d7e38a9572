-- ===== src/Samples/Rounds.antt =====
-- Two threads over a store in memory: two jobs come in, two workers ask for them, and one result comes
-- back.
use backjob.Common.{ℕ, String, ◌≡◌, refl, List, [], ◌∷◌, All, string_eq, nat_eq, arith}
use backjob.Common.HashMap
use backjob.Common.HashMap.{HashMap, newest_first, get, insert, remove}
use backjob.Outcome.{ok}
use backjob.JobInfo.{JobInfo, with_id, is_pending, is_ready, is_in_queue, is_unscheduled, run}
use backjob.Memory
use backjob.Memory.{
  Inner, generate_id, save_job, fetch_job_from_queue, queue_job, run_job, update_stats,
}
use backjob.Memory.View.{view, storage-Laws}
use backjob.Memory.Requests.{new-IsValid}
use backjob.Memory.Total.{storage-IsReliable}
use backjob.Storage.Trait
use backjob.Storage.Delivery.{handed, NotHanded}
use backjob.Server.{
  Worker, Server, Message, new_job, request_job, handle, handle_new_job, serve_queue, serve_entry,
  settle, handle_request_job,
}
use backjob.Server
use backjob.Pool.{ServerConfig, Pool, handles, start}
use backjob.Pool.Once.{Round, Rounds, stop, turn, traffic, sent_once}
use backjob.Samples.Data.{chrono, clock, clocks, resize}
use backjob.Samples.Stores.{order, store, empty_store, room}
use backjob.Samples.Actors.{never, actix_store, first}

abbrev other : Worker
other = record { addr = 2; id = 1001; queue = "images" }

-- The second thread handles the first worker's request, and the first thread all else.
abbrev one : Server (Inner String) String
one = (handle actix_store newest_first clocks (new_job resize) (Server.new empty_store)).1

abbrev two : Server (Inner String) String
two = (handle actix_store newest_first clocks (new_job resize) one).1

abbrev second : Server (Inner String) String
second = record { storage = two.storage; cache = HashMap.empty; sent = [] }

abbrev three : Server (Inner String) String
three = (handle actix_store newest_first clocks (request_job first) second).1

abbrev again : Server (Inner String) String
again = record { storage = three.storage; cache = two.cache; sent = three.sent }

abbrev four : Server (Inner String) String
four = (handle actix_store newest_first clocks (request_job other) again).1

one_by :
    handle actix_store newest_first clocks (new_job resize) (Server.new empty_store) ≡ (ok tt, one)
unfolding handle handle_request_job Server.place Server.new Trait.request_job fetch_job_from_queue
    handle_new_job serve_queue serve_entry settle Trait.new_job generate_id save_job queue_job
    run_job update_stats Memory.new newest_first get insert remove HashMap.empty is_pending is_ready
    is_in_queue run with_id is_unscheduled start
one_by = refl

two_by : handle actix_store newest_first clocks (new_job resize) one ≡ (ok tt, two)
unfolding handle handle_request_job Server.place Server.new Trait.request_job fetch_job_from_queue
    handle_new_job serve_queue serve_entry settle Trait.new_job generate_id save_job queue_job
    run_job update_stats Memory.new newest_first get insert remove HashMap.empty is_pending is_ready
    is_in_queue run with_id is_unscheduled start
two_by = refl

three_by : handle actix_store newest_first clocks (request_job first) second ≡ (ok tt, three)
unfolding handle handle_request_job Server.place Server.new Trait.request_job fetch_job_from_queue
    handle_new_job serve_queue serve_entry settle Trait.new_job generate_id save_job queue_job
    run_job update_stats Memory.new newest_first get insert remove HashMap.empty is_pending is_ready
    is_in_queue run with_id is_unscheduled start
three_by = refl

four_by : handle actix_store newest_first clocks (request_job other) again ≡ (ok tt, four)
unfolding handle handle_request_job Server.place Server.new Trait.request_job fetch_job_from_queue
    handle_new_job serve_queue serve_entry settle Trait.new_job generate_id save_job queue_job
    run_job update_stats Memory.new newest_first get insert remove HashMap.empty is_pending is_ready
    is_in_queue run with_id is_unscheduled start
four_by = refl

abbrev config : ServerConfig (Inner String)
config = record { storage = empty_store; threads = 2 }

abbrev with_run : ℕ → JobInfo String
with_run id = run 1002 (with_id 1000 id resize)

abbrev ended : Pool (Inner String) String
ended = record { storage = four.storage; caches = four.cache ∷ three.cache ∷ []; sent = four.sent }

abbrev rounds : List (Round String)
rounds =
    (new_job resize, [])
    ∷ (new_job resize, [])
    ∷ (request_job first, three.sent)
    ∷ (request_job other, (other, with_run 0) ∷ [])
    ∷ []

run_of : Rounds actix_store view (start config) rounds ended
unfolding handle handle_request_job Server.place Server.new Trait.request_job fetch_job_from_queue
    handle_new_job serve_queue serve_entry settle Trait.new_job generate_id save_job queue_job
    run_job update_stats Memory.new newest_first get insert remove HashMap.empty is_pending is_ready
    is_in_queue run with_id is_unscheduled start
run_of =
    turn (new_job resize) [] room
      (handles [] (HashMap.empty ∷ []) newest_first clocks (ok tt) (Server.new empty_store) one
        (λ q. cc) one_by)
      refl
      (turn (new_job resize) [] (omega arith)
        (handles [] (HashMap.empty ∷ []) newest_first clocks (ok tt) one two (λ q. cc) two_by) refl
        (turn (request_job first) three.sent tt
          (handles (two.cache ∷ []) [] newest_first clocks (ok tt) second three (λ q. cc) three_by)
          refl
          (turn (request_job other) ((other, with_run 0) ∷ []) tt
            (handles [] (three.cache ∷ []) newest_first clocks (ok tt) again four (λ q. cc) four_by)
            refl stop)))

seen_by : traffic rounds ≡ handed 1 ∷ handed 0 ∷ []
unfolding handle handle_request_job Server.place Server.new Trait.request_job fetch_job_from_queue
    handle_new_job serve_queue serve_entry settle Trait.new_job generate_id save_job queue_job
    run_job update_stats Memory.new newest_first get insert remove HashMap.empty is_pending is_ready
    is_in_queue run with_id is_unscheduled start
seen_by = refl

sent_once_example : All (NotHanded 1) (handed 0 ∷ [])
unfolding start
sent_once_example =
    sent_once never chrono store view (storage-IsReliable order chrono) 1 [] (handed 0 ∷ []) []
      (storage-Laws order) tt tt (new-IsValid clock) run_of seen_by ((λ q. cc), tt)
