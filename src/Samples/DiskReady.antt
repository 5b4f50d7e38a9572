-- ===== src/Samples/DiskReady.antt =====
-- The methods of a store on disk from an empty store on, and a job that is found.
use backjob.Common.{
  subst, true, some, String, ◌≡◌, refl, sym, ◌∙◌, [], ◌∷◌, string_eq, nat_eq, arith, ◌⊎◌,
}
use backjob.Common.HashMap
use backjob.Common.HashMap.{HashMap, newest_first, get, insert, remove, get-empty}
use backjob.Outcome.{ok, end_of, panic}
use backjob.JobInfo.{JobInfo, fail, with_id, is_ready}
use backjob.Storage.Trait.{new_job, request_job, return_job}
use backjob.Storage.Total.{Arrives, FailsLate}
use backjob.Storage.Calls.{Calls, news, done, after, Calls-IsSound, Calls-IsValid}
use backjob.Sled.Laws.{sled_storage-Laws}
use backjob.Sled.Finds.{sled_request_job-finds}
use backjob.Storage.Delivery.{Event}
use backjob.Sled.Key.{job_key}
use backjob.Sled.Tree
use backjob.Sled.Store.{generate_id, save_job, queue_job, update_stats, stop_running}
use backjob.Sled.Open.{new-IsEmpty}
use backjob.Sled.Total.Operations.{Good}
use backjob.Sled.Total.Methods.{sled_methods-Arrive, storage-IsTotal}
use backjob.Pool.Disk.{empty-Good}
use backjob.Samples.Data.{chrono, clock, resize}
use backjob.Samples.Disk.{
  json, json-IsJson, json-Writes, database, content, bound, database-IsDatabase, database-Works,
}
use backjob.Samples.Sled.{
  room, empty-IsSound, empty-IsValid, Disk, store, seen, empty_disk, opens, stored,
  opens-OpensStored, five-IsNew, opened,
}

abbrev AllReady : Disk → Type 0
AllReady =
    Good database content bound database-IsDatabase json json-IsJson database-Works json-Writes

empty_disk-AllReady : AllReady empty_disk
empty_disk-AllReady =
    empty-Good database content bound database-IsDatabase json json-IsJson database-Works
      json-Writes empty_disk
      (new-IsEmpty database content bound database-IsDatabase json json-IsJson stored opens
        opens-OpensStored 5 5 empty_disk five-IsNew opened)

sled_methods-Arrive_example :
    Arrives AllReady (new_job chrono store clock resize) empty_disk
    × Arrives AllReady (request_job chrono store clock "images" 7) empty_disk
    × (Arrives AllReady (return_job chrono store clock (fail 0)) empty_disk
        ⊎ ((return_job chrono store clock (fail 0) empty_disk ≡ (panic, empty_disk))
            × FailsLate
                (storage-IsTotal database content bound database-IsDatabase json json-IsJson
                  database-Works json-Writes 0)
                chrono
                clock
                (fail 0)
                empty_disk))
sled_methods-Arrive_example =
    sled_methods-Arrive database content bound database-IsDatabase json json-IsJson database-Works
      json-Writes chrono clock 0 resize "images" 7 (fail 0) empty_disk empty_disk-AllReady

-- A store with one job, which waits.
abbrev created_disk : Disk
created_disk = (new_job chrono store clock resize empty_disk).1

created_by : new_job chrono store clock resize empty_disk ≡ (ok 5, created_disk)
unfolding new_job generate_id save_job queue_job update_stats stop_running get insert remove
    HashMap.empty Tree.set Tree.del Tree.decoded Tree.fetch_and_update
created_by = refl

created_disk-AllReady : AllReady created_disk
created_disk-AllReady =
    let ((id, t, e, kept), _, _) =
      sled_methods-Arrive database content bound database-IsDatabase json json-IsJson database-Works
        json-Writes chrono clock 0 resize "images" 7 (fail 0) empty_disk empty_disk-AllReady in
    subst AllReady (end_of (sym e ∙ created_by)) kept

created_history : Calls chrono store seen empty_disk (Event.created 5 ∷ []) created_disk
created_history = after (Event.created 5) (news clock resize 5 room created_by) done

was_created :
    ((seen created_disk).queued 5 ≡ some "images")
    × ((seen created_disk).jobs 5 ≡ some (with_id 1000 5 resize))
    × (is_ready 1000 (with_id 1000 5 resize) ≡ true)
unfolding new_job generate_id save_job queue_job update_stats stop_running get insert remove
    HashMap.empty Tree.set Tree.del Tree.decoded Tree.fetch_and_update with_id is_ready job_key
was_created = (refl, refl, refl)

sled_request_job-finds_example :
    (job : JobInfo String) × (t : Disk) × (request_job chrono store clock "images" 7 created_disk
      ≡ (ok (some job), t))
    × (job.queue ≡ "images")
    × (is_ready 1001 job ≡ true)
sled_request_job-finds_example =
    sled_request_job-finds database content bound database-IsDatabase json json-IsJson
      database-Works json-Writes chrono clock 0 7 5 "images" (with_id 1000 5 resize) created_disk
      (Calls-IsSound
        (sled_storage-Laws database content bound database-IsDatabase json json-IsJson 1)
        empty-IsSound created_history)
      (Calls-IsValid
        (sled_storage-Laws database content bound database-IsDatabase json json-IsJson 1)
        empty-IsSound empty-IsValid created_history)
      created_disk-AllReady (omega arith) (was_created.0) (was_created.1) (was_created.2)
