-- ===== src/Samples/Disk.antt =====
-- A database whose trees are hash maps and never fail, and a JSON that carries values as they are.
use backjob.Common.{
  ℕ, ◌+◌, String, ◌≡◌, refl, subst, ap, ◌∙◌, inl, inr, false, Option, none, some, List, [], ◌∷◌,
  map, ◌==◌, string_eq, arith,
}
use mathlib.Core.List.{Memᴰ}
use backjob.Common.Lists.{mem-cons_cases}
use backjob.Common.HashMap.{
  HashMap, newest_first, get, insert, remove, get-insert, get-insert_self, get-remove,
  get-remove_self,
}
use backjob.JobInfo.{JobInfo}
use backjob.Stats.{Stats}
use backjob.Sled.{Database, Json, Result}
use backjob.Sled.Lawful.{IsDatabase, IsJson}
use backjob.Sled.Working.{Works}
use backjob.Sled.Total.{Writes}
use backjob.Sled.Tree.{and_then}

pub data Blob : Type 0 where
  job : JobInfo String → Blob
  number : ℕ → Blob
  text : String → Blob
  stats : Stats → Blob

abbrev as_job : Blob → Option (JobInfo String)
as_job (job j) = some j
as_job _ = none

abbrev as_number : Blob → Option ℕ
as_number (number n) = some n
as_number _ = none

abbrev as_text : Blob → Option String
as_text (text s) = some s
as_text _ = none

abbrev as_stats : Blob → Option Stats
as_stats (stats x) = some x
as_stats _ = none

abbrev pub json : Json String Blob
json = record {
  job = record { to_value = λ j. some (job j); from_value = as_job };
  number = record { to_value = λ n. some (number n); from_value = as_number };
  text = record { to_value = λ s. some (text s); from_value = as_text };
  stats = record { to_value = λ x. some (stats x); from_value = as_stats };
}

pub json-IsJson : IsJson json
json-IsJson = record {
  job = λ j v h. subst (λ (b : Option Blob). and_then b as_job ≡ some j) h refl;
  number = λ n v h. subst (λ (b : Option Blob). and_then b as_number ≡ some n) h refl;
  text = λ s v h. subst (λ (b : Option Blob). and_then b as_text ≡ some s) h refl;
  stats = λ x v h. subst (λ (b : Option Blob). and_then b as_stats ≡ some x) h refl;
  number_writes = λ n. (number n, refl);
  stats_writes = λ x. (stats x, refl);
}

abbrev pub Table : Type 0
Table = HashMap String Blob

abbrev put : String → Option Blob → Table → Table
put k none t = remove k t
put k (some b) t = insert k b t

abbrev fine : String × Blob → Result (Unit {0}) (String × Blob)
fine e = inr e

abbrev pub database : Database Table ℕ Blob (Unit {0})
database = record {
  get = λ k t. inr (get k t);
  set = λ k b t. (inr (get k t), insert k b t);
  del = λ k t. (inr (get k t), remove k t);
  fetch_and_update = λ k f t. (inr (get k t), put k (f (get k t)) t);
  iter = λ t. map fine (newest_first.iter t);
  generate_id = λ d. (inr d, d + 1);
}

abbrev pub content : Table → String → Option Blob
content t k = get k t

abbrev pub bound : ℕ → ℕ
bound d = d

mem_of_mem-map :
    (k : String) (b : Blob) (l : List (String × Blob))
    → Memᴰ (fine (k, b)) (map fine l)
    → Memᴰ (k, b) l
mem_of_mem-map k b [] m = elim m [ ]
mem_of_mem-map k b (x ∷ l) m = elim (mem-cons_cases m) [
  | inl p ↦ let same : (k, b) ≡ x = cc in Memᴰ.head same
  | inr later ↦ Memᴰ.tail (mem_of_mem-map k b l later)
]

mem-map :
    (k : String) (b : Blob) (l : List (String × Blob))
    → Memᴰ (k, b) l
    → Memᴰ (fine (k, b)) (map fine l)
mem-map k b [] m = elim m [ ]
mem-map k b (x ∷ l) m = elim (mem-cons_cases m) [
  | inl p ↦ Memᴰ.head (ap fine p)
  | inr later ↦ Memᴰ.tail (mem-map k b l later)
]

get-put_self : (k : String) (o : Option Blob) (t : Table) → get k (put k o t) ≡ o
get-put_self k none t = get-remove_self k t
get-put_self k (some b) t = get-insert_self k b t

get-put_other :
    (k j : String) (o : Option Blob) (t : Table) → (k == j) ≡ false → get j (put k o t) ≡ get j t
get-put_other k j none t ne = get-remove k j t ∙ rw ne refl
get-put_other k j (some b) t ne = get-insert k j b t ∙ rw ne refl

pub database-IsDatabase : IsDatabase database content bound
database-IsDatabase = record {
  get = λ k t. refl;
  set_at = λ k b t u o h. subst (λ v. get k v ≡ some b) (λ i. (h i).1) (get-insert_self k b t);
  set_other = λ k j b t ne. get-put_other k j (some b) t ne;
  del_at = λ k t u o h.
      let answer : inr (get k t) ≡ inr o = λ i. (h i).0 in
      (cc, subst (λ v. get k v ≡ none) (λ i. (h i).1) (get-remove_self k t));
  del_other = λ k j t ne. get-put_other k j none t ne;
  update_at = λ k f t u o h.
      let answer : inr (get k t) ≡ inr o = λ i. (h i).0 in
      (cc, subst (λ v. get k v ≡ f (get k t)) (λ i. (h i).1) (get-put_self k (f (get k t)) t));
  update_other = λ k j f t ne. get-put_other k j (f (get k t)) t ne;
  iter_sound = λ k b t m. newest_first.sound k b t (mem_of_mem-map k b (newest_first.iter t) m);
  iter_complete = λ k b t h. mem-map k b (newest_first.iter t) (newest_first.complete k b t h);
  generate_id = λ d e id h.
      let answer : inr d ≡ inr id = λ i. (h i).0 in
      let same : d ≡ id = cc in let next : d + 1 ≡ e = λ i. (h i).1 in (omega arith, omega arith);
}

pub database-Works : Works database
database-Works = record {
  set = λ k b t. (get k t, insert k b t, refl);
  del = λ k t. (get k t, remove k t, refl);
  update = λ k f t. (get k t, put k (f (get k t)) t, refl);
  generate_id = λ d. (d, d + 1, refl);
}

pub json-Writes : Writes json
json-Writes = record { job = λ j. (job j, refl); text = λ s. (text s, refl) }
