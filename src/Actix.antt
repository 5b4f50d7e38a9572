-- ===== src/Actix.antt =====
-- jobs-actix/src/storage.rs: the store as the server uses it, with its errors turned into those of
-- the `failure` crate by `from`.
use backjob.Common.{ℕ, String, ◌≡◌, Option}
use backjob.Outcome.{Outcome, ok, err, panic, Exec}
use backjob.Chrono.{Chrono, Clock}
use backjob.JobInfo.{JobInfo, NewJobInfo, ReturnJobInfo}
use backjob.Stats.{Stats}
use backjob.Storage.Trait
use backjob.Storage.Trait.{Storage}

pub record ActixStorage (S F V : Type 0) : Type 0 where
  pub new_job : Clock → NewJobInfo V → Exec S F ℕ
  pub request_job : Clock → String → ℕ → Exec S F (Option (JobInfo V))
  pub return_job : Clock → ReturnJobInfo → Exec S F (Unit {0})
  pub get_stats : Clock → S → Outcome F Stats

abbrev pub map_err {ℓ} : {A E F : Type ℓ} → (E → F) → Outcome E A → Outcome F A
map_err from (ok a) = ok a
map_err from (err e) = err (from e)
map_err from panic = panic

module _ {S E F V : Type 0} (from : E → F) (chrono : Chrono) (store : Storage S E V) where
  abbrev pub wrap : {A : Type 0} → Exec S E A → Exec S F A
  wrap m s = (map_err from (m s).0, (m s).1)

  -- `StorageWrapper`
  abbrev pub storage_wrapper : ActixStorage S F V
  storage_wrapper = record {
    new_job = λ clock new. wrap (Trait.new_job chrono store clock new);
    request_job =
        λ clock queue runner_id. wrap (Trait.request_job chrono store clock queue runner_id);
    return_job = λ clock r. wrap (Trait.return_job chrono store clock r);
    get_stats = λ clock s. map_err from (store.get_stats clock s);
  }

-- A success behind the wrapper is a success of the store.
pub map_err-eq-ok :
    {S E F A : Type 0} (from : E → F) (r : Outcome E A) (s t : S) (a : A)
    → ◌≡◌ {A = Outcome F A × S} (map_err from r, s) (ok a, t)
    → ◌≡◌ {A = Outcome E A × S} (r, s) (ok a, t)
map_err-eq-ok from (ok b) s t a h = cc
map_err-eq-ok from (err e) s t a h = absurd (cc)
map_err-eq-ok from panic s t a h = absurd (cc)
