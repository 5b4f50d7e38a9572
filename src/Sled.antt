-- ===== src/Sled.antt =====
-- The store on disk, jobs-sled, over the database crate `sled`, which is a parameter. `T` is a tree of
-- the database, `D` the rest of it, `B` the bytes that it stores and `X` its errors; a key is a text.
pub mod Key
pub mod Tree
pub mod Store
pub mod Lawful
pub mod Walk
pub mod Sound
pub mod Fetch
pub mod View
pub mod Laws
pub mod Working
pub mod Total
pub mod Lock
pub mod Ready
pub mod Finds
pub mod Open
use backjob.Common.{ℕ, String, ◌⊎◌, Option, List}
use backjob.Processor.{Serde}
use backjob.JobInfo.{JobInfo}
use backjob.Stats.{Stats}

-- `Error` of jobs-sled/src/error.rs
pub data Error (X : Type 0) : Type 0 where
  sled : X → Error X
  deserialize : Error X
  serialize : Error X

-- `Result`, whose left values are the errors.
abbrev pub Result : Type 0 → Type 0 → Type 0
Result E A = E ⊎ A

-- What the store uses of `sled::Tree` and `sled::Db`. Reading a tree does not change it; a write
-- answers with the bytes that were there before.
pub record Database (T D B X : Type 0) : Type 0 where
  pub get : String → T → Result X (Option B)
  pub set : String → B → T → Result X (Option B) × T
  pub del : String → T → Result X (Option B) × T
  pub fetch_and_update : String → (Option B → Option B) → T → Result X (Option B) × T
  pub iter : T → List (Result X (String × B))
  pub generate_id : D → Result X ℕ × D

-- `serde_json` at each type that a tree stores.
pub record Json (V B : Type 0) : Type 0 where
  pub job : Serde (JobInfo V) B
  pub number : Serde ℕ B
  pub text : Serde String B
  pub stats : Serde Stats B
