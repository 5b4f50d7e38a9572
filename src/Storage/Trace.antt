-- ===== src/Storage/Trace.antt =====
-- What can be seen of a history of calls (jobs-core/src/storage.rs): who is handed a job, and which
-- job is returned.
use backjob.Common.{ℕ, ◌≡◌, refl, sym, subst, ap, List, [], ◌∷◌, ◌++◌, All}
use backjob.Chrono.{Chrono}
use backjob.Storage.Trait.{Storage}
use backjob.Storage.Spec.{Spec, Laws}
use backjob.Storage.Valid.{IsValid}
use backjob.Storage.Delivery.{Event, created, refused, handed, returned, NotReturned, NotHanded}
use backjob.Storage.Calls.{Calls, done, after, Calls-IsSound, Calls-IsValid, handed_once}

abbrev pub seen : List Event → List Event
seen [] = []
seen (created id ∷ events) = seen events
seen (refused ∷ events) = seen events
seen (handed id ∷ events) = handed id ∷ seen events
seen (returned id ∷ events) = returned id ∷ seen events

pub seen-append : (l r : List Event) → seen (l ++ r) ≡ seen l ++ seen r
seen-append [] r = refl
seen-append (created id ∷ l) r = seen-append l r
seen-append (refused ∷ l) r = seen-append l r
seen-append (handed id ∷ l) r = ap (λ e. handed id ∷ e) (seen-append l r)
seen-append (returned id ∷ l) r = ap (λ e. returned id ∷ e) (seen-append l r)

-- A history can be cut where what is seen of it is cut.
abbrev Cut : List Event → List Event → List Event → Type 0
Cut events a b =
    (l : List Event) × (r : List Event) × (events ≡ l ++ r) × (seen l ≡ a) × (seen r ≡ b)

cut : (events a b : List Event) → seen events ≡ a ++ b → Cut events a b
cut events [] b h = ([], events, refl, refl, h)
cut [] (x ∷ a) b h = absurd (cc)
cut (created id ∷ events) (x ∷ a) b h =
    let (l, r, e, p, q) = cut events (x ∷ a) b h in
    (created id ∷ l, r, ap (λ t. created id ∷ t) e, p, q)
cut (refused ∷ events) (x ∷ a) b h =
    let (l, r, e, p, q) = cut events (x ∷ a) b h in (refused ∷ l, r, ap (λ t. refused ∷ t) e, p, q)
cut (handed id ∷ events) (x ∷ a) b h =
    let (l, r, e, p, q) = cut events a b (cc) in
    (handed id ∷ l, r, ap (λ t. handed id ∷ t) e, cc, q)
cut (returned id ∷ events) (x ∷ a) b h =
    let (l, r, e, p, q) = cut events a b (cc) in
    (returned id ∷ l, r, ap (λ t. returned id ∷ t) e, cc, q)

-- The history up to the first event that is seen, and from it.
up_to_seen :
    (events b : List Event) (x : Event)
    → seen events ≡ x ∷ b
    → (l : List Event) × (r : List Event) × (events ≡ l ++ x ∷ r) × (seen r ≡ b)
up_to_seen [] b x h = absurd (cc)
up_to_seen (created id ∷ events) b x h =
    let (l, r, e, p) = up_to_seen events b x h in (created id ∷ l, r, ap (λ t. created id ∷ t) e, p)
up_to_seen (refused ∷ events) b x h =
    let (l, r, e, p) = up_to_seen events b x h in (refused ∷ l, r, ap (λ t. refused ∷ t) e, p)
up_to_seen (handed id ∷ events) b x h = ([], events, cc, cc)
up_to_seen (returned id ∷ events) b x h = ([], events, cc, cc)

-- What is seen decides whether a job was returned, and whether it was handed out.
NotReturned-seen :
    (id : ℕ) (events : List Event)
    → All (NotReturned id) (seen events)
    → All (NotReturned id) events
NotReturned-seen id [] h = tt
NotReturned-seen id (created i ∷ events) h = (λ q. cc, NotReturned-seen id events h)
NotReturned-seen id (refused ∷ events) h = (λ q. cc, NotReturned-seen id events h)
NotReturned-seen id (handed i ∷ events) h = (h.0, NotReturned-seen id events (h.1))
NotReturned-seen id (returned i ∷ events) h = (h.0, NotReturned-seen id events (h.1))

NotHanded-seen :
    (id : ℕ) (events : List Event) → All (NotHanded id) events → All (NotHanded id) (seen events)
NotHanded-seen id [] h = tt
NotHanded-seen id (created i ∷ events) h = NotHanded-seen id events (h.1)
NotHanded-seen id (refused ∷ events) h = NotHanded-seen id events (h.1)
NotHanded-seen id (handed i ∷ events) h = (h.0, NotHanded-seen id events (h.1))
NotHanded-seen id (returned i ∷ events) h = (h.0, NotHanded-seen id events (h.1))

module _ {S E V : Type 0} {chrono : Chrono} {store : Storage S E V} {view : S → Spec V} where
  pub Calls-append :
      {s t u : S} {l r : List Event}
      → Calls chrono store view s l t
      → Calls chrono store view t r u
      → Calls chrono store view s (l ++ r) u
  Calls-append done b = b
  Calls-append (after e call rest) b = after e call (Calls-append rest b)

  Calls-cut :
      (l r : List Event) {s u : S}
      → Calls chrono store view s (l ++ r) u
      → (t : S) × Calls chrono store view s l t × Calls chrono store view t r u
  Calls-cut [] r {s} calls = (s, done, calls)
  Calls-cut (e ∷ l) r (after _ call rest) =
      let (t, first, second) = Calls-cut l r rest in (t, after e call first, second)

module _ {S E V : Type 0} {chrono : Chrono} {store : Storage S E V} {view : S → Spec V}
    {IsSound : S → Type 0} (laws : Laws store view IsSound) where
  handed_first :
      {s t : S} (id : ℕ) (between later : List Event)
      → IsSound s
      → IsValid (view s)
      → Calls chrono store view s (handed id ∷ (between ++ later)) t
      → All (NotReturned id) between
      → All (NotHanded id) between
  handed_first id between later sound v (after e call rest) kept =
      let (u, first, _) = Calls-cut between later rest in
      handed_once laws id sound v call first kept

  -- Of what is seen of a history, no job is handed out a second time before it is returned.
  pub seen_once :
      {s t : S} {events : List Event} (id : ℕ) (before between later : List Event)
      → IsSound s
      → IsValid (view s)
      → Calls chrono store view s events t
      → seen events ≡ before ++ handed id ∷ (between ++ later)
      → All (NotReturned id) between
      → All (NotHanded id) between
  seen_once {s} {t} {events} id before between later sound v calls h kept =
      let (l, r, e, _, q) = cut events before (handed id ∷ (between ++ later)) h in
      let (m, n, f, p) = up_to_seen r (between ++ later) (handed id) q in
      let (mine, rest, g, a, _) = cut n between later p in
      let (u, first, second) = Calls-cut l r (subst (λ k. Calls chrono store view s k t) e calls) in
      let (w, third, last) =
        Calls-cut m (handed id ∷ n) (subst (λ k. Calls chrono store view u k t) f second) in
      let sound_u = Calls-IsSound laws sound first in
      let v_u = Calls-IsValid laws sound v first in
      subst (All (NotHanded id)) a (
        NotHanded-seen id mine (
          handed_first id mine rest (Calls-IsSound laws sound_u third)
            (Calls-IsValid laws sound_u v_u third)
            (subst (λ k. Calls chrono store view w (handed id ∷ k) t) g last)
            (NotReturned-seen id mine (subst (All (NotReturned id)) (sym a) kept))))
