-- ===== src/Pool/Disk.antt =====
-- jobs-actix over jobs-sled: the servers over a store on disk that was just opened.
use backjob.Common.{ℕ, suc, String, ◌≡◌, Option, List, ◌∷◌, ◌++◌, All}
use backjob.Outcome.{ok}
use backjob.Chrono.{Chrono}
use backjob.Storage.Delivery.{Event, handed, NotReturned, NotHanded}
use backjob.Actix.{storage_wrapper}
use backjob.Pool.{Pool, start}
use backjob.Pool.Once.{Round, Rounds, traffic, sent_once}
use backjob.Sled.{Error, Result, Database, Json}
use backjob.Sled.Lawful.{IsDatabase, IsJson}
use backjob.Sled.Working.{Works}
use backjob.Sled.Total.{Writes}
use backjob.Sled.Total.Operations.{Good}
use backjob.Sled.Total.Methods.{sled_storage-IsReliable}
use backjob.Sled.View.{view}
use backjob.Sled.Laws.{sled_storage-Laws}
use backjob.Sled.Open.{new, OpensStored, IsNew, IsEmpty, new-IsEmpty, new-Fresh}
use backjob.Sled.Store.{SledStorage, storage}

module _ {T D B X V : Type 0} (db : Database T D B X) (content : T → String → Option B)
    (bound : D → ℕ) (laws : IsDatabase db content bound) (json : Json V B) (reads : IsJson json)
    (works : Works db) (writes : Writes json) where
  -- What is empty can be read.
  pub empty-Good :
      (s : SledStorage T D)
      → IsEmpty db content bound laws json reads s
      → Good db content bound laws json reads works writes s
  empty-Good s (no_jobs, no_running, no_inverse, no_queue, no_stats, no_lock) = record {
    jobs = λ k b h. let gone = no_jobs k in absurd (cc);
    runners = λ k b h. let gone = no_running k in absurd (cc);
    inverse = λ k b h. let gone = no_inverse k in absurd (cc);
    queues = λ k b h. let gone = no_queue k in absurd (cc);
    counted = λ k b h. let gone = no_stats k in absurd (cc);
    locks = no_lock;
  }

  -- Over a store on disk that was opened on a database whose trees hold nothing, if an opened tree
  -- holds what the database stores, the database works and JSON can be written of every job and
  -- text: whatever messages the threads of the servers handle in whatever order while there are
  -- identifiers left for new jobs, a job that one of them sent to a worker is not sent again, to
  -- any worker by any thread, before a message with its result came in.
  pub sled_sent_once :
      {F : Type 0} (from : Error X → F) (chrono : Chrono) (fuel threads : ℕ)
      (stored : D → String → String → Option B) (open_named : String → D → Result X T × D) (d e : D)
      (s : SledStorage T D) {q : Pool (SledStorage T D) V} {rounds : List (Round V)} (id : ℕ)
      (before between later : List Event)
      → OpensStored content stored open_named
      → IsNew stored d
      → new open_named d ≡ (ok s, e)
      → Rounds
          (storage_wrapper from chrono (storage db json (suc fuel)))
          (view db content bound laws json reads)
          (start (record { storage = s; threads = threads }))
          rounds
          q
      → traffic rounds ≡ before ++ handed id ∷ (between ++ later)
      → All (NotReturned id) between
      → All (NotHanded id) between
  unfolding start
  sled_sent_once from chrono fuel threads stored open_named d e s id before between later opens
        fresh opened run cut kept =
      let (sound, valid, _) =
        new-Fresh db content bound laws json reads stored open_named opens d e s fresh opened in
      let good =
        empty-Good s (
          new-IsEmpty db content bound laws json reads stored open_named opens d e s fresh
            opened) in
      sent_once from chrono (storage db json (suc fuel)) (view db content bound laws json reads)
        (sled_storage-IsReliable db content bound laws json reads works writes chrono fuel) id
        before between later (sled_storage-Laws db content bound laws json reads (suc fuel)) good
        sound valid run cut kept
