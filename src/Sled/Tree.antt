-- ===== src/Sled/Tree.antt =====
-- jobs-sled/src/sled_wrappers.rs: a tree of values of one type, which are stored as JSON.
use backjob.Common.{String, inl, inr, Option, none, some, List, map}
use backjob.Processor.{Serde}
use backjob.Sled.{Error, sled, deserialize, serialize, Result, Database}

abbrev pub and_then : {A B : Type 0} → Option A → (A → Option B) → Option B
and_then none f = none
and_then (some a) f = f a

module _ {T D B X A : Type 0} (db : Database T D B X) (json : Serde A B) where
  -- What is made of the bytes that the database answers with.
  unfoldable pub decoded : Result X (Option B) → Result (Error X) (Option A)
  decoded (inl e) = inl (sled e)
  decoded (inr none) = inr none
  decoded (inr (some vec)) = elim (json.from_value vec) [
    | some a ↦ inr (some a)
    | none ↦ inl deserialize
  ]

  unfoldable pub get : String → T → Result (Error X) (Option A)
  unfolding decoded
  get key tree = decoded (db.get key tree)

  -- `.map(move |_| value)`, after the database's error was turned into one of the store's.
  abbrev pub stored : A → Result X (Option B) → Result (Error X) (Option A)
  stored value (inl e) = inl (sled e)
  stored value (inr none) = inr none
  stored value (inr (some _)) = inr (some value)

  unfoldable pub set : String → A → T → Result (Error X) (Option A) × T
  set key value tree = elim (json.to_value value) [
    | none ↦ (inl serialize, tree)
    | some vec ↦ (stored value (db.set key vec tree).0, (db.set key vec tree).1)
  ]

  unfoldable pub del : String → T → Result (Error X) (Option A) × T
  unfolding decoded
  del key tree = (decoded (db.del key tree).0, (db.del key tree).1)

  -- The closure that the database calls: bytes that are no JSON of a value count as none, and a
  -- value that cannot be written is removed.
  abbrev pub on_bytes : (Option A → Option A) → Option B → Option B
  on_bytes f opt = and_then (f (and_then opt json.from_value)) json.to_value

  unfoldable pub fetch_and_update :
      String → (Option A → Option A) → T → Result (Error X) (Option A) × T
  unfolding decoded
  fetch_and_update key f tree = (
    decoded (db.fetch_and_update key (on_bytes f) tree).0,
    (db.fetch_and_update key (on_bytes f) tree).1,
  )

  -- `Iter::next`, for one item of the database's iteration.
  unfoldable pub item : Result X (String × B) → Result (Error X) (String × A)
  item (inl e) = inl (sled e)
  item (inr (k, v)) = elim (json.from_value v) [ some a ↦ inr (k, a) | none ↦ inl deserialize ]

  unfoldable pub iter : T → List (Result (Error X) (String × A))
  unfolding item
  iter tree = map item (db.iter tree)
