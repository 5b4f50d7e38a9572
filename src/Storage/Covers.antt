-- ===== src/Storage/Covers.antt =====
-- jobs-core/src/storage.rs: what is seen of the calls of a store beside the messages that asked for
-- them. A return whose call panicked came in as a message and is no call that ended.
use backjob.Common.{ℕ, ◌≡◌, refl, ap, ◌∙◌, subst, sym, ◌⊎◌, inl, inr, List, [], ◌∷◌, ◌++◌, All}
use backjob.Storage.Delivery.{Event, created, refused, handed, returned, NotHanded}

-- The first event of the calls is `e`, and the others satisfy `rest`.
abbrev Begins : Event → (List Event → Type 0) → List Event → Type 0
Begins e rest events = (more : List Event) × (events ≡ e ∷ more) × rest more

-- The events are those that came in, less some of the returns.
abbrev pub Covers : List Event → List Event → Type 0
Covers events [] = events ≡ []
Covers events (created id ∷ heard) = Begins (created id) (λ l. Covers l heard) events
Covers events (refused ∷ heard) = Begins refused (λ l. Covers l heard) events
Covers events (handed id ∷ heard) = Begins (handed id) (λ l. Covers l heard) events
Covers events (returned id ∷ heard) =
    Covers events heard ⊎ Begins (returned id) (λ l. Covers l heard) events

-- Events that came in and were all told.
pub Covers-self : (l : List Event) → Covers l l
Covers-self [] = refl
Covers-self (created id ∷ l) = (l, refl, Covers-self l)
Covers-self (refused ∷ l) = (l, refl, Covers-self l)
Covers-self (handed id ∷ l) = (l, refl, Covers-self l)
Covers-self (returned id ∷ l) = inr (l, refl, Covers-self l)

pub Covers-append : (a b l r : List Event) → Covers a l → Covers b r → Covers (a ++ b) (l ++ r)
Covers-append a b [] r h k = subst (λ x. Covers (x ++ b) r) (sym h) k
Covers-append a b (created id ∷ l) r (m, e, h) k =
    (m ++ b, ap (λ x. x ++ b) e, Covers-append m b l r h k)
Covers-append a b (refused ∷ l) r (m, e, h) k =
    (m ++ b, ap (λ x. x ++ b) e, Covers-append m b l r h k)
Covers-append a b (handed id ∷ l) r (m, e, h) k =
    (m ++ b, ap (λ x. x ++ b) e, Covers-append m b l r h k)
Covers-append a b (returned id ∷ l) r (inl h) k = inl (Covers-append a b l r h k)
Covers-append a b (returned id ∷ l) r (inr (m, e, h)) k =
    inr (m ++ b, ap (λ x. x ++ b) e, Covers-append m b l r h k)

-- The calls can be cut where the messages are.
abbrev Parts : List Event → List Event → List Event → Type 0
Parts events l r = (a : List Event) × (b : List Event) × (events ≡ a ++ b) × Covers a l × Covers b r

pub Covers-cut : (events l r : List Event) → Covers events (l ++ r) → Parts events l r
Covers-cut events [] r h = ([], events, refl, refl, h)
Covers-cut events (created id ∷ l) r (m, e, h) =
    let (a, b, p, q, k) = Covers-cut m l r h in
    (created id ∷ a, b, e ∙ ap (λ x. created id ∷ x) p, (a, refl, q), k)
Covers-cut events (refused ∷ l) r (m, e, h) =
    let (a, b, p, q, k) = Covers-cut m l r h in
    (refused ∷ a, b, e ∙ ap (λ x. refused ∷ x) p, (a, refl, q), k)
Covers-cut events (handed id ∷ l) r (m, e, h) =
    let (a, b, p, q, k) = Covers-cut m l r h in
    (handed id ∷ a, b, e ∙ ap (λ x. handed id ∷ x) p, (a, refl, q), k)
Covers-cut events (returned id ∷ l) r (inl h) =
    let (a, b, p, q, k) = Covers-cut events l r h in (a, b, p, inl q, k)
Covers-cut events (returned id ∷ l) r (inr (m, e, h)) =
    let (a, b, p, q, k) = Covers-cut m l r h in
    (returned id ∷ a, b, e ∙ ap (λ x. returned id ∷ x) p, inr (a, refl, q), k)

-- What holds of all messages holds of the calls.
pub Covers-All : (P : Event → Type 0) (a l : List Event) → Covers a l → All P l → All P a
Covers-All P a [] h _ = subst (All P) (sym h) tt
Covers-All P a (created id ∷ l) (m, e, h) (p, ps) = subst (All P) (sym e) (p, Covers-All P m l h ps)
Covers-All P a (refused ∷ l) (m, e, h) (p, ps) = subst (All P) (sym e) (p, Covers-All P m l h ps)
Covers-All P a (handed id ∷ l) (m, e, h) (p, ps) = subst (All P) (sym e) (p, Covers-All P m l h ps)
Covers-All P a (returned id ∷ l) (inl h) (p, ps) = Covers-All P a l h ps
Covers-All P a (returned id ∷ l) (inr (m, e, h)) (p, ps) =
    subst (All P) (sym e) (p, Covers-All P m l h ps)

-- If the calls hand a job to nobody, nobody was sent it.
pub Covers-NotHanded :
    (id : ℕ) (a l : List Event) → Covers a l → All (NotHanded id) a → All (NotHanded id) l
Covers-NotHanded id a [] h ps = tt
Covers-NotHanded id a (created k ∷ l) (m, e, h) ps =
    let (p, rest) = subst (All (NotHanded id)) e ps in (p, Covers-NotHanded id m l h rest)
Covers-NotHanded id a (refused ∷ l) (m, e, h) ps =
    let (p, rest) = subst (All (NotHanded id)) e ps in (p, Covers-NotHanded id m l h rest)
Covers-NotHanded id a (handed k ∷ l) (m, e, h) ps =
    let (p, rest) = subst (All (NotHanded id)) e ps in (p, Covers-NotHanded id m l h rest)
Covers-NotHanded id a (returned k ∷ l) (inl h) ps =
    ((λ p. absurd (cc)), Covers-NotHanded id a l h ps)
Covers-NotHanded id a (returned k ∷ l) (inr (m, e, h)) ps =
    let (p, rest) = subst (All (NotHanded id)) e ps in
    ((λ q. absurd (cc)), Covers-NotHanded id m l h rest)
