-- ===== src/Pool/Once.antt =====
-- jobs-actix/src/lib.rs: over any order of messages and threads, a job goes to one worker at a time.
use backjob.Common.{append-cancel, ℕ, ◌≡◌, refl, sym, subst, ap, ◌∙◌, List, [], ◌∷◌, ◌++◌, All}
use backjob.Outcome.{Outcome}
use backjob.Chrono.{Chrono}
use backjob.JobInfo.{JobInfo}
use backjob.Storage.Trait.{Storage}
use backjob.Storage.Spec.{Spec, Laws}
use backjob.Storage.Valid.{IsValid}
use backjob.Storage.Delivery.{Event, handed, NotReturned, NotHanded}
use backjob.Storage.Calls.{Calls, done}
use backjob.Storage.Reliable.{IsReliable}
use backjob.Storage.Covers.{Covers, Covers-append, Covers-cut, Covers-All, Covers-NotHanded}
use backjob.Storage.Trace.{seen, seen-append, Calls-append, seen_once}
use backjob.Actix.{ActixStorage, storage_wrapper}
use backjob.Server.{Worker, Server, Message}
use backjob.Server.Calls.{Told, sending, receiving, HasRoom}
use backjob.Server.Calls.Handlers.{handle-Told}
use backjob.Pool.{Pool, Step, handles, stops}

-- A message, and the jobs that were sent to workers while it was handled.
abbrev pub Round : Type 0 → Type 0
Round V = Message V × List (Worker × JobInfo V)

-- What can be seen of the rounds: the returns that came in and the jobs that went out, in order.
abbrev pub traffic : {V : Type 0} → List (Round V) → List Event
traffic [] = []
traffic ((message, new) ∷ rounds) = (receiving message ++ sending new) ++ traffic rounds

-- Rounds of the threads, the first one first. A new job comes while there are identifiers left.
pub data Rounds {S F V : Type 0} (store : ActixStorage S F V) (view : S → Spec V)
    : Pool S V → List (Round V) → Pool S V → Type 0 where
  stop : {p : Pool S V} → Rounds store view p [] p
  turn :
      {p q r : Pool S V} {rounds : List (Round V)} (message : Message V)
      (new : List (Worker × JobInfo V))
      → HasRoom (view p.storage) message
      → Step store message p q
      → q.sent ≡ p.sent ++ new
      → Rounds store view q rounds r
      → Rounds store view p ((message, new) ∷ rounds) r

module _ {S E F V : Type 0} (from : E → F) (chrono : Chrono) (store : Storage S E V)
    (view : S → Spec V) {Good : S → Type 0} (reliable : IsReliable chrono store Good) where
  -- What the handling of a message in some thread does to a good store, and what is seen of it.
  abbrev Seen : List Event → Pool S V → Pool S V → Type 0
  Seen told p q =
      Good p.storage
      → (events : List Event) × (new : List (Worker × JobInfo V)) × Calls chrono store view
          p.storage events q.storage
        × (q.sent ≡ p.sent ++ new)
        × Covers (seen events) (told ++ sending new)
        × Good q.storage

  Step-Seen :
      (message : Message V) (p q : Pool S V)
      → HasRoom (view p.storage) message
      → Step (storage_wrapper from chrono store) message p q
      → Seen (receiving message) p q
  Step-Seen message p q room (handles earlier later order clocks r server next runs h) =
      subst
        (λ (x : Outcome F (Unit {0}) × Server S V).
          Told from chrono store view reliable (receiving message) server x.1)
        h (handle-Told from chrono store view reliable order clocks message server room)
  Step-Seen message p q room (stops earlier later order clocks server next h) =
      subst
        (λ (x : Outcome F (Unit {0}) × Server S V).
          Told from chrono store view reliable (receiving message) server x.1)
        h (handle-Told from chrono store view reliable order clocks message server room)

  -- The rounds call the store, and what is seen of the calls is their traffic, less the returns in
  -- which the store panicked.
  Rounds-Calls :
      {p q : Pool S V} {rounds : List (Round V)}
      → Good p.storage
      → Rounds (storage_wrapper from chrono store) view p rounds q
      → (events : List Event) × Calls chrono store view p.storage events q.storage
        × Covers (seen events) (traffic rounds)
  Rounds-Calls good stop = ([], done, refl)
  Rounds-Calls {p} {q} good (turn {q = m} {rounds = rounds} message new room step sent rest) =
      let (first, sent_now, calls, e, h, kept) = Step-Seen message p m room step good in
      let (later, more, k) = Rounds-Calls kept rest in
      let same : sent_now ≡ new = append-cancel p.sent (sym e ∙ sent) in
      (
        first ++ later,
        Calls-append calls more,
        subst (λ l. Covers l ((receiving message ++ sending new) ++ traffic rounds))
            (sym (seen-append first later))
            (Covers-append (seen first) (seen later) (receiving message ++ sending new)
              (traffic rounds)
              (subst (λ n. Covers (seen first) (receiving message ++ sending n)) same h) k),
      )

  -- Over a store that obeys the laws, and whose methods succeed from a good state and leave a good
  -- one, but for returns that panic and leave the store as it was: from a good, sound and valid
  -- state, whatever messages the threads handle in whatever order while there are identifiers left
  -- for new jobs: a job that one of them sent to a worker is not sent again, to any worker by any
  -- thread, before a message with its result came in.
  pub sent_once :
      {IsSound : S → Type 0} {p q : Pool S V} {rounds : List (Round V)} (id : ℕ)
      (before between later : List Event)
      → Laws store view IsSound
      → Good p.storage
      → IsSound p.storage
      → IsValid (view p.storage)
      → Rounds (storage_wrapper from chrono store) view p rounds q
      → traffic rounds ≡ before ++ handed id ∷ (between ++ later)
      → All (NotReturned id) between
      → All (NotHanded id) between
  sent_once id before between later laws good sound v run cut kept =
      let (events, calls, covered) = Rounds-Calls good run in
      let (a, b, p, _, x) =
        Covers-cut (seen events) before (handed id ∷ (between ++ later))
          (subst (Covers (seen events)) cut covered) in
      let (c, q, y) = x in
      let (d, f, o, between_, _) = Covers-cut c between later y in
      Covers-NotHanded id d between between_ (
        seen_once laws id a d f sound v calls (p ∙ ap (λ l. a ++ l) (q ∙ ap (λ l. handed id ∷ l) o))
          (Covers-All (NotReturned id) d between between_ kept))
