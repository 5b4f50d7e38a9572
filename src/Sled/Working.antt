-- ===== src/Sled/Working.antt =====
-- jobs-sled/src/sled_wrappers.rs over a database whose operations do not fail: what the operations of a
-- tree answer, and that its values can still be read.
use backjob.Common.{
  ℕ, String, ◌≡◌, refl, sym, subst, ap, ◌∙◌, false, Option, none, some, inl, inr, ◌==◌, string_eq,
  Option-cases, Bool-cases, beq_iff,
}
use backjob.Processor.{Serde, RoundTrips}
use backjob.Sled.{Database}
use backjob.Sled.Tree.{and_then, decoded, set, stored, del, fetch_and_update, on_bytes}
use backjob.Sled.Lawful.{IsDatabase, read}

-- No operation of the database fails.
pub record Works {T D B X : Type 0} (db : Database T D B X) : Type 0 where
  pub set : (k : String) (b : B) (t : T) → (o : Option B) × (u : T) × (db.set k b t ≡ (inr o, u))
  pub del : (k : String) (t : T) → (o : Option B) × (u : T) × (db.del k t ≡ (inr o, u))
  pub update :
      (k : String) (f : Option B → Option B) (t : T)
      → (o : Option B) × (u : T) × (db.fetch_and_update k f t ≡ (inr o, u))
  pub generate_id : (d : D) → (id : ℕ) × (e : D) × (db.generate_id d ≡ (inr id, e))

module _ {T D B X A : Type 0} (db : Database T D B X) (content : T → String → Option B)
    (bound : D → ℕ) (laws : IsDatabase db content bound) (works : Works db) (json : Serde A B) where
  -- The bytes under a key are a value, if there are any.
  abbrev pub IsReadableAt : String → T → Type 0
  IsReadableAt k t = (b : B) → content t k ≡ some b → (a : A) × (json.from_value b ≡ some a)

  abbrev pub IsReadable : T → Type 0
  IsReadable t = (k : String) → IsReadableAt k t

  pub decoded-read :
      (k : String) (t : T)
      → IsReadableAt k t
      → decoded db json (inr (content t k)) ≡ inr (read db content bound laws json t k)
  unfolding decoded
  decoded-read k t readable = elim (Option-cases (content t k)) [
    | inl free ↦ rw free refl
    | inr (b, held) ↦ let (a, r) = readable b held in rw (held, r) refl
  ]

  -- An update of a value answers with what is read there, and leaves what is made of it.
  pub updated :
      (k : String) (f : Option A → Option A) (t : T)
      → IsReadableAt k t
      → (u : T) × (fetch_and_update db json k f t ≡ (inr (read db content bound laws json t k), u))
        × (content u k ≡ and_then (f (read db content bound laws json t k)) json.to_value)
        × ((j : String) → (k == j) ≡ false → content u j ≡ content t j)
  unfolding fetch_and_update
  updated k f t readable =
      let (o, u, e) = works.update k (on_bytes db json f) t in
      let (was, now) = laws.update_at k (on_bytes db json f) t u o e in
      (
        u,
        ap (λ x. (decoded db json x.0, x.1)) e
            ∙ ap (λ (x : Option B). (decoded db json (inr x), u)) was
            ∙ ap (λ x. (x, u)) (decoded-read k t readable),
        now,
        λ j ne.
            subst (λ v. content v j ≡ content t j) (λ i. (e i).1)
              (laws.update_other k j (on_bytes db json f) t ne),
      )

  -- A tree in which one key changed is readable, if what is there now is.
  kept :
      (k : String) (t u : T)
      → IsReadable t
      → ((j : String) → (k == j) ≡ false → content u j ≡ content t j)
      → IsReadableAt k u
      → IsReadable u
  kept k t u readable others now j b h = elim (Bool-cases (k == j)) [
    | inl hit ↦
        let same : k ≡ j = (beq_iff k j).0 hit in
        now b (subst (λ i. content u i ≡ some b) (sym same) h)
    | inr miss ↦ readable j b (sym (others j miss) ∙ h)
  ]

  written :
      RoundTrips json
      → (o : Option A) (b : B) → and_then o json.to_value ≡ some b
      → (a : A) × (json.from_value b ≡ some a)
  written trips none b h = absurd (cc)
  written trips (some a) b h = (a, trips a b h)

  pub update-goes :
      (k : String) (f : Option A → Option A) (t : T)
      → RoundTrips json
      → IsReadable t
      → (o : Option A) × (u : T) × (fetch_and_update db json k f t ≡ (inr o, u)) × IsReadable u
  update-goes k f t trips readable =
      let (u, e, now, others) = updated k f t (readable k) in
      (
        read db content bound laws json t k,
        u,
        e,
        kept k t u readable others
            (λ b h. written trips (f (read db content bound laws json t k)) b (sym now ∙ h)),
      )

  pub del-goes :
      (k : String) (t : T)
      → IsReadable t
      → (o : Option A) × (u : T) × (del db json k t ≡ (inr o, u)) × IsReadable u
  unfolding del
  del-goes k t readable =
      let (o, u, e) = works.del k t in
      let (was, gone) = laws.del_at k t u o e in
      (
        read db content bound laws json t k,
        u,
        ap (λ x. (decoded db json x.0, x.1)) e
            ∙ ap (λ (x : Option B). (decoded db json (inr x), u)) was
            ∙ ap (λ x. (x, u)) (decoded-read k t (readable k)),
        kept k t u readable
            (λ j ne.
              subst (λ v. content v j ≡ content t j) (λ i. (e i).1) (laws.del_other k j t ne))
            (λ b h. absurd (cc)),
      )

  stored-inr : (a : A) (b : Option B) → (o : Option A) × (stored db json a (inr b) ≡ inr o)
  stored-inr a none = (none, refl)
  stored-inr a (some b) = (some a, refl)

  pub set-goes :
      (k : String) (a : A) (b : B) (t : T)
      → RoundTrips json
      → json.to_value a ≡ some b
      → IsReadable t
      → (o : Option A) × (u : T) × (set db json k a t ≡ (inr o, u)) × IsReadable u
  unfolding set
  set-goes k a b t trips writes readable =
      let (p, u, e) = works.set k b t in
      let (o, q) = stored-inr a p in
      (
        o,
        u,
        rw (writes, set) (ap (λ x. (stored db json a x.0, x.1)) e ∙ ap (λ x. (x, u)) q),
        kept k t u readable
            (λ j ne.
              subst (λ v. content v j ≡ content t j) (λ i. (e i).1) (laws.set_other k j b t ne))
            (λ c h. (a, trips a c (writes ∙ sym (laws.set_at k b t u p e) ∙ h))),
      )
