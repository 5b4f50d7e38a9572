-- ===== src/Samples/DiskRounds.antt =====
-- A thread over a store on disk: two jobs come in, and two workers ask for them.
use backjob.Common.{
  ℕ, String, ◌≡◌, refl, sym, ap, ◌∙◌, List, [], ◌∷◌, ◌++◌, All, string_eq, nat_eq, arith,
}
use backjob.Common.HashMap
use backjob.Common.HashMap.{HashMap, newest_first, get, insert, remove, get-empty}
use backjob.Outcome.{ok}
use backjob.JobInfo.{JobInfo, with_id, is_pending, is_ready, is_in_queue, is_unscheduled, run}
use backjob.Storage.Trait
use backjob.Storage.Trait.{new_job, request_job, return_job}
use backjob.Storage.Delivery.{handed, NotHanded}
use backjob.Sled.{Error}
use backjob.Sled.Key.{job_key}
use backjob.Sled.Tree
use backjob.Sled.Store.{
  generate_id, save_job, queue_job, run_job, update_stats, stop_running, fetch_job_from_queue,
  lock_queue, acquire, release, unlock, fetch_ready, first_ready, take_out,
}
use backjob.Actix.{ActixStorage, storage_wrapper}
use backjob.Server.{
  Worker, Server, Message, handle, handle_new_job, serve_queue, serve_entry, settle,
  handle_request_job,
}
use backjob.Server
use backjob.Pool.{ServerConfig, Pool, handles, start}
use backjob.Pool.Once.{Round, Rounds, stop, turn, traffic}
use backjob.Pool.Disk.{sled_sent_once}
use backjob.Samples.Data.{chrono, clocks, resize}
use backjob.Samples.Actors.{first}
use backjob.Samples.Disk.{
  json, json-IsJson, json-Writes, database, content, bound, database-IsDatabase, database-Works,
}
use backjob.Samples.Sled.{
  Disk, store, seen, empty_disk, opens, stored, opens-OpensStored, five-IsNew, opened,
}

abbrev as_text : Error (Unit {0}) → String
as_text _ = "sled"

abbrev on_disk : ActixStorage Disk String String
on_disk = storage_wrapper as_text chrono store

abbrev second : Worker
second = record { addr = 2; id = 1001; queue = "images" }

abbrev one : Server Disk String
one = (handle on_disk newest_first clocks (Message.new_job resize) (Server.new empty_disk)).1

abbrev two : Server Disk String
two = (handle on_disk newest_first clocks (Message.new_job resize) one).1

abbrev three : Server Disk String
three = (handle on_disk newest_first clocks (Message.request_job first) two).1

abbrev four : Server Disk String
four = (handle on_disk newest_first clocks (Message.request_job second) three).1

one_by :
    handle on_disk newest_first clocks (Message.new_job resize) (Server.new empty_disk)
    ≡ (ok tt, one)
unfolding handle handle_new_job serve_queue serve_entry settle handle_request_job Server.place
    Server.new is_unscheduled Trait.new_job Trait.request_job fetch_job_from_queue lock_queue
    acquire release unlock fetch_ready first_ready take_out generate_id save_job queue_job run_job
    update_stats stop_running newest_first get insert remove HashMap.empty Tree.set Tree.del
    Tree.decoded Tree.fetch_and_update Tree.get Tree.iter Tree.item job_key with_id is_pending
    is_ready is_in_queue run
one_by = refl

two_by : handle on_disk newest_first clocks (Message.new_job resize) one ≡ (ok tt, two)
unfolding handle handle_new_job serve_queue serve_entry settle handle_request_job Server.place
    Server.new is_unscheduled Trait.new_job Trait.request_job fetch_job_from_queue lock_queue
    acquire release unlock fetch_ready first_ready take_out generate_id save_job queue_job run_job
    update_stats stop_running newest_first get insert remove HashMap.empty Tree.set Tree.del
    Tree.decoded Tree.fetch_and_update Tree.get Tree.iter Tree.item job_key with_id is_pending
    is_ready is_in_queue run
two_by = refl

three_by : handle on_disk newest_first clocks (Message.request_job first) two ≡ (ok tt, three)
unfolding handle handle_new_job serve_queue serve_entry settle handle_request_job Server.place
    Server.new is_unscheduled Trait.new_job Trait.request_job fetch_job_from_queue lock_queue
    acquire release unlock fetch_ready first_ready take_out generate_id save_job queue_job run_job
    update_stats stop_running newest_first get insert remove HashMap.empty Tree.set Tree.del
    Tree.decoded Tree.fetch_and_update Tree.get Tree.iter Tree.item job_key with_id is_pending
    is_ready is_in_queue run
three_by = refl

four_by : handle on_disk newest_first clocks (Message.request_job second) three ≡ (ok tt, four)
unfolding handle handle_new_job serve_queue serve_entry settle handle_request_job Server.place
    Server.new is_unscheduled Trait.new_job Trait.request_job fetch_job_from_queue lock_queue
    acquire release unlock fetch_ready first_ready take_out generate_id save_job queue_job run_job
    update_stats stop_running newest_first get insert remove HashMap.empty Tree.set Tree.del
    Tree.decoded Tree.fetch_and_update Tree.get Tree.iter Tree.item job_key with_id is_pending
    is_ready is_in_queue run
four_by = refl

abbrev with_run : ℕ → JobInfo String
with_run id = run 1002 (with_id 1000 id resize)

first_sent : one.sent ≡ []
unfolding handle handle_new_job serve_queue serve_entry settle handle_request_job Server.place
    Server.new is_unscheduled Trait.new_job Trait.request_job fetch_job_from_queue lock_queue
    acquire release unlock fetch_ready first_ready take_out generate_id save_job queue_job run_job
    update_stats stop_running newest_first get insert remove HashMap.empty Tree.set Tree.del
    Tree.decoded Tree.fetch_and_update Tree.get Tree.iter Tree.item job_key with_id is_pending
    is_ready is_in_queue run
first_sent = refl

second_sent : two.sent ≡ one.sent ++ []
unfolding handle handle_new_job serve_queue serve_entry settle handle_request_job Server.place
    Server.new is_unscheduled Trait.new_job Trait.request_job fetch_job_from_queue lock_queue
    acquire release unlock fetch_ready first_ready take_out generate_id save_job queue_job run_job
    update_stats stop_running newest_first get insert remove HashMap.empty Tree.set Tree.del
    Tree.decoded Tree.fetch_and_update Tree.get Tree.iter Tree.item job_key with_id is_pending
    is_ready is_in_queue run
second_sent = refl

third_is : three.sent ≡ (first, with_run 6) ∷ []
unfolding handle handle_new_job serve_queue serve_entry settle handle_request_job Server.place
    Server.new is_unscheduled Trait.new_job Trait.request_job fetch_job_from_queue lock_queue
    acquire release unlock fetch_ready first_ready take_out generate_id save_job queue_job run_job
    update_stats stop_running newest_first get insert remove HashMap.empty Tree.set Tree.del
    Tree.decoded Tree.fetch_and_update Tree.get Tree.iter Tree.item job_key with_id is_pending
    is_ready is_in_queue run
third_is = refl

third_sent : three.sent ≡ two.sent ++ (first, with_run 6) ∷ []
third_sent =
    third_is
    ∙ ap (λ l. l ++ (first, with_run 6) ∷ []) (sym (second_sent ∙ ap (λ l. l ++ []) first_sent))

fourth_is : four.sent ≡ (first, with_run 6) ∷ (second, with_run 5) ∷ []
unfolding handle handle_new_job serve_queue serve_entry settle handle_request_job Server.place
    Server.new is_unscheduled Trait.new_job Trait.request_job fetch_job_from_queue lock_queue
    acquire release unlock fetch_ready first_ready take_out generate_id save_job queue_job run_job
    update_stats stop_running newest_first get insert remove HashMap.empty Tree.set Tree.del
    Tree.decoded Tree.fetch_and_update Tree.get Tree.iter Tree.item job_key with_id is_pending
    is_ready is_in_queue run
fourth_is = refl

fourth_sent : four.sent ≡ three.sent ++ (second, with_run 5) ∷ []
fourth_sent = fourth_is ∙ ap (λ l. l ++ (second, with_run 5) ∷ []) (sym third_is)

abbrev rounds : List (Round String)
rounds =
    (Message.new_job resize, [])
    ∷ (Message.new_job resize, [])
    ∷ (Message.request_job first, (first, with_run 6) ∷ [])
    ∷ (Message.request_job second, (second, with_run 5) ∷ [])
    ∷ []

abbrev ended : Pool Disk String
ended = record { storage = four.storage; caches = four.cache ∷ []; sent = four.sent }

abbrev config : ServerConfig Disk
config = record { storage = empty_disk; threads = 1 }

run_of : Rounds on_disk seen (start config) rounds ended
unfolding start Server.new handle new_job generate_id save_job get HashMap.empty queue_job
    update_stats
run_of =
    turn (Message.new_job resize) [] (omega arith)
      (handles [] [] newest_first clocks (ok tt) (Server.new empty_disk) one (λ q. cc) one_by)
      first_sent
      (turn (Message.new_job resize) [] (omega arith)
        (handles [] [] newest_first clocks (ok tt) one two (λ q. cc) two_by) second_sent
        (turn (Message.request_job first) ((first, with_run 6) ∷ []) tt
          (handles [] [] newest_first clocks (ok tt) two three (λ q. cc) three_by) third_sent
          (turn (Message.request_job second) ((second, with_run 5) ∷ []) tt
            (handles [] [] newest_first clocks (ok tt) three four (λ q. cc) four_by) fourth_sent
            stop)))

seen_by : traffic rounds ≡ handed 6 ∷ handed 5 ∷ []
unfolding run with_id
seen_by = refl

sled_sent_once_example : All (NotHanded 6) (handed 5 ∷ [])
sled_sent_once_example =
    sled_sent_once database content bound database-IsDatabase json json-IsJson database-Works
      json-Writes as_text chrono 0 1 stored opens 5 5 empty_disk 6 [] (handed 5 ∷ []) []
      opens-OpensStored five-IsNew opened run_of seen_by ((λ q. cc), tt)
