-- ===== src/Sled/Lawful.antt =====
-- What jobs-sled relies on of the database crate and of `serde_json`, and what the wrappers of
-- jobs-sled/src/sled_wrappers.rs make of it.
use backjob.Common.{
  ℕ, ◌≤◌, ◌<◌, String, ◌≡◌, refl, sym, ap, ◌∙◌, inl, inr, false, Option, none, some, ◌==◌,
  string_eq, if◌then◌else◌, arith, Option-cases, Bool-cases, beq_iff, beq_refl, subst,
}
use mathlib.Core.List.{Memᴰ}
use backjob.Processor.{Serde, RoundTrips}
use backjob.Stats.{Stats}
use backjob.Sled.{Error, serialize, Result, Database, Json}
use backjob.Sled.Tree.{and_then, decoded, get, set, stored, del, fetch_and_update, on_bytes}

-- A tree holds bytes under keys. Reading does not fail; a write may, and then too it leaves the other
-- keys alone. A walk meets every entry. Identifiers grow.
pub record IsDatabase {T D B X : Type 0} (db : Database T D B X) (content : T → String → Option B)
    (bound : D → ℕ) : Type 0 where
  pub get : (k : String) (t : T) → db.get k t ≡ inr (content t k)
  pub set_at :
      (k : String) (b : B) (t u : T) (o : Option B)
      → db.set k b t ≡ (inr o, u)
      → content u k ≡ some b
  pub set_other :
      (k j : String) (b : B) (t : T) → (k == j) ≡ false → content (db.set k b t).1 j ≡ content t j
  pub del_at :
      (k : String) (t u : T) (o : Option B)
      → db.del k t ≡ (inr o, u)
      → (o ≡ content t k) × (content u k ≡ none)
  pub del_other : (k j : String) (t : T) → (k == j) ≡ false → content (db.del k t).1 j ≡ content t j
  pub update_at :
      (k : String) (f : Option B → Option B) (t u : T) (o : Option B)
      → db.fetch_and_update k f t ≡ (inr o, u)
      → (o ≡ content t k) × (content u k ≡ f (content t k))
  pub update_other :
      (k j : String) (f : Option B → Option B) (t : T)
      → (k == j) ≡ false
      → content (db.fetch_and_update k f t).1 j ≡ content t j
  pub iter_sound :
      (k : String) (b : B) (t : T) → Memᴰ (inr (k, b)) (db.iter t) → content t k ≡ some b
  pub iter_complete :
      (k : String) (b : B) (t : T) → content t k ≡ some b → Memᴰ (inr (k, b)) (db.iter t)
  pub generate_id :
      (d e : D) (id : ℕ) → db.generate_id d ≡ (inr id, e) → (bound d ≤ id) × (id < bound e)

-- What was written is read back, and numbers and statistics can always be written.
pub record IsJson {V B : Type 0} (json : Json V B) : Type 0 where
  pub job : RoundTrips json.job
  pub number : RoundTrips json.number
  pub text : RoundTrips json.text
  pub stats : RoundTrips json.stats
  pub number_writes : (n : ℕ) → (b : B) × (json.number.to_value n ≡ some b)
  pub stats_writes : (x : Stats) → (b : B) × (json.stats.to_value x ≡ some b)

module _ {T D B X A : Type 0} (db : Database T D B X) (content : T → String → Option B)
    (bound : D → ℕ) (laws : IsDatabase db content bound) (json : Serde A B) where
  -- The value under a key, if there is one and it can be read.
  abbrev pub read : T → String → Option A
  read t k = and_then (content t k) json.from_value

  decoded-eq-inr :
      (b : Option B) (o : Option A)
      → decoded db json (inr b) ≡ inr o
      → o ≡ and_then b json.from_value
  unfolding decoded
  decoded-eq-inr none o h = cc
  decoded-eq-inr (some b) o h = elim (Option-cases (json.from_value b)) [
    | inl e ↦ absurd (ground arith)
    | inr (a, e) ↦ ground arith
  ]

  pub read-get : (k : String) (t : T) (o : Option A) → get db json k t ≡ inr o → o ≡ read t k
  unfolding get
  read-get k t o h = decoded-eq-inr (content t k) o (ap (decoded db json) (sym (laws.get k t)) ∙ h)

  -- A value that is in the tree is read.
  pub get-read : (k : String) (t : T) (a : A) → read t k ≡ some a → get db json k t ≡ inr (some a)
  unfolding get decoded
  get-read k t a h = elim (Option-cases (content t k)) [
    | inl e ↦ absurd (ground arith)
    | inr (b, e) ↦ ap (decoded db json) (laws.get k t) ∙ ground arith
  ]

  stored-eq-inr :
      (a : A) (r : Result X (Option B)) (o : Option A)
      → stored db json a r ≡ inr o
      → (b : Option B) × (r ≡ inr b)
  stored-eq-inr a (inl e) o h = absurd (cc)
  stored-eq-inr a (inr none) o h = (none, refl)
  stored-eq-inr a (inr (some b)) o h = (some b, refl)

  answered :
      (r : Result X (Option B)) (o : Option A)
      → decoded db json r ≡ inr o
      → (b : Option B) × (r ≡ inr b) × (o ≡ and_then b json.from_value)
  unfolding decoded
  answered (inl e) o h = absurd (cc)
  answered (inr b) o h = (b, refl, decoded-eq-inr b o h)

  -- A write leaves the other keys alone, whatever it answers.
  pub set_other :
      (k j : String) (a : A) (t : T)
      → (k == j) ≡ false
      → content (set db json k a t).1 j ≡ content t j
  unfolding set
  set_other k j a t ne = elim (Option-cases (json.to_value a)) [
    | inl e ↦ rw (e, set) refl
    | inr (b, e) ↦ rw (e, set) (laws.set_other k j b t ne)
  ]

  pub del_other :
      (k j : String) (t : T) → (k == j) ≡ false → content (del db json k t).1 j ≡ content t j
  unfolding del
  del_other k j t ne = laws.del_other k j t ne

  -- A value that was written is read back, and the other keys read as before.
  pub read-set :
      (k : String) (a : A) (t u : T) (o : Option A)
      → RoundTrips json
      → set db json k a t ≡ (inr o, u)
      → (j : String) → read u j ≡ (if k == j then some a else read t j)
  unfolding set
  read-set k a t u o trips h j = elim (Option-cases (json.to_value a)) [
    | inl e ↦
        let q : ◌≡◌ {A = Result (Error X) (Option A) × T} (inl serialize, t) (inr o, u) =
          rw (e, set) at h in
        absurd (cc)
    | inr (b, e) ↦
        let q : ◌≡◌ {A = Result (Error X) (Option A) × T}
            (stored db json a (db.set k b t).0, (db.set k b t).1) (inr o, u) =
          rw (e, set) at h in
        let (prev, p) = stored-eq-inr a (db.set k b t).0 o (λ i. (q i).0) in
        let at : content u k ≡ some b = laws.set_at k b t u prev (λ i. (p i, (q i).1)) in
        let end : (db.set k b t).1 ≡ u = λ i. (q i).1 in
        elim (Bool-cases (k == j)) [
          | inl hit ↦
              let same : k ≡ j = (beq_iff k j).0 hit in
              let here : content u j ≡ some b = subst (λ i. content u i ≡ some b) same at in
              let back = trips a b e in ground (arith, here, back, hit)
          | inr miss ↦
              let before : content u j ≡ content t j =
                subst (λ (v : T). content v j ≡ content t j) end (laws.set_other k j b t miss) in
              rw (before, miss) refl
        ]
  ]

  pub read-del :
      (k : String) (t u : T) (o : Option A)
      → del db json k t ≡ (inr o, u)
      → (o ≡ read t k) × ((j : String) → read u j ≡ (if k == j then none else read t j))
  unfolding del
  read-del k t u o h =
      let (prev, p, e) = answered (db.del k t).0 o (λ i. (h i).0) in
      let (was, gone) = laws.del_at k t u prev (λ i. (p i, (h i).1)) in
      (
        e ∙ ap (λ (b : Option B). and_then b json.from_value) was,
        λ j. elim (Bool-cases (k == j)) [
          | inl hit ↦
              let same : k ≡ j = (beq_iff k j).0 hit in
              let here : content u j ≡ none = subst (λ i. content u i ≡ none) same gone in
              rw (here, hit) refl
          | inr miss ↦
              let before : content u j ≡ content t j =
                subst (λ (v : T). content v j ≡ content t j) (λ i. (h i).1)
                  (laws.del_other k j t miss) in
              rw (before, miss) refl
        ],
      )

  -- An update reads the value, and writes what the function makes of it, if that can be written.
  pub read-fetch_and_update :
      (k : String) (f : Option A → Option A) (t u : T) (o : Option A) (a : A) (b : B)
      → RoundTrips json
      → f (read t k) ≡ some a
      → json.to_value a ≡ some b
      → fetch_and_update db json k f t ≡ (inr o, u)
      → (o ≡ read t k) × (read u k ≡ some a)
  unfolding fetch_and_update
  read-fetch_and_update k f t u o a b trips made written h =
      let (prev, p, e) =
        answered (db.fetch_and_update k (on_bytes db json f) t).0 o (λ i. (h i).0) in
      let (was, now) = laws.update_at k (on_bytes db json f) t u prev (λ i. (p i, (h i).1)) in
      let put_in : content u k ≡ some b = now ∙ ap (λ x. and_then x json.to_value) made ∙ written in
      (
        e ∙ ap (λ (x : Option B). and_then x json.from_value) was,
        ap (λ (x : Option B). and_then x json.from_value) put_in ∙ trips a b written,
      )

  -- A value that was written under a key is what a read of the key answers, if JSON reads back what it
  -- writes.
  pub get-set :
      (k : String) (a : A) (t u : T) (o : Option A)
      → RoundTrips json
      → set db json k a t ≡ (inr o, u)
      → get db json k u ≡ inr (some a)
  get-set k a t u o trips h = get-read k u a (read-set k a t u o trips h k ∙ rw (beq_refl k) refl)
