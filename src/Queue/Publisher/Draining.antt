-- ===== src/Queue/Publisher/Draining.antt =====
-- The order of a batch, and its waits.
use v2_xrpl_tools.Prelude.{
  ℕ, suc, ◌≡◌, inl, inr, refl, sym, ap, subst, Bool, true, false, some, List, [], ◌∷◌, ◌++◌, String,
  map, arith, if◌then◌else◌,
}
use v2_xrpl_tools.Prelude.Outcome.{Outcome, done, raised, outcome_cases}
use v2_xrpl_tools.Queue.Publisher.{
  PublishOptions, QueueEvent, Publication, batch_publication, BatchAction, drained, publishes,
  publish_all, publish_batch,
}

-- what the channel was given, in order
unfoldable pub given : List BatchAction → List Publication
given [] = []
given (drained ∷ more) = given more
given (publishes p ready ∷ more) = p ∷ given more

-- No event is given to a channel whose last answer was that its buffer is full, before it was drained.
abbrev pub IsDrained : Bool → List BatchAction → Type 0
IsDrained ready [] = Unit
IsDrained ready (drained ∷ more) = IsDrained true more
IsDrained ready (publishes p next ∷ more) = (ready ≡ true) × IsDrained next more

abbrev pub IsPrefix : List Publication → List Publication → Type 0
IsPrefix a b = (rest : List Publication) × (a ++ rest ≡ b)

abbrev pub wait : Bool → List BatchAction → List BatchAction
wait ready more = if ready then more else drained ∷ more

publish_all-raised :
    (channel : ℕ → Publication → Outcome Bool) (k : ℕ) (ready : Bool) (p : Publication)
    (ps : List Publication) (m : String)
    → channel k p ≡ raised m
    → publish_all channel k ready (p ∷ ps)
      ≡ (wait ready [], raised "Failed to publish message to queue")
unfolding publish_all
publish_all-raised channel k ready p ps m e = rw (publish_all, e) refl

publish_all-done :
    (channel : ℕ → Publication → Outcome Bool) (k : ℕ) (ready next : Bool) (p : Publication)
    (ps : List Publication)
    → channel k p ≡ done next
    → let (more, o) = publish_all channel (suc k) next ps in
      publish_all channel k ready (p ∷ ps) ≡ (wait ready (publishes p next ∷ more), o)
unfolding publish_all
publish_all-done channel k true next p ps e = rw (publish_all, e) refl
publish_all-done channel k false next p ps e = rw (publish_all, e) refl

wait-IsDrained :
    (ready : Bool) (more : List BatchAction)
    → IsDrained true more
    → IsDrained ready (wait ready more)
wait-IsDrained true more h = h
wait-IsDrained false more h = h

given-wait : (ready : Bool) (more : List BatchAction) → given (wait ready more) ≡ given more
unfolding given
given-wait true more = refl
given-wait false more = refl

publish_all-IsDrained :
    (channel : ℕ → Publication → Outcome Bool) (k : ℕ) (ready : Bool) (ps : List Publication)
    → IsDrained ready (publish_all channel k ready ps).0
unfolding publish_all
publish_all-IsDrained channel k ready [] = tt
publish_all-IsDrained channel k ready (p ∷ ps) = elim (outcome_cases (channel k p)) [
  | inl (m, e) ↦
      subst (λ r. IsDrained ready r.0) (sym (publish_all-raised channel k ready p ps m e))
        (wait-IsDrained ready [] tt)
  | inr (next, e) ↦
      subst (λ r. IsDrained ready r.0) (sym (publish_all-done channel k ready next p ps e))
        (wait-IsDrained ready _ (refl, publish_all-IsDrained channel (suc k) next ps))
]

-- the publications so far are the first ones, and all where the batch does not throw
abbrev InOrder : List Publication → List BatchAction × Outcome (Unit {0}) → Type 0
InOrder ps (actions, o) = IsPrefix (given actions) ps × (o ≡ done tt → given actions ≡ ps)

cons-InOrder :
    (ready next : Bool) (p : Publication) (ps : List Publication)
    (r : List BatchAction × Outcome (Unit {0}))
    → InOrder ps r
    → InOrder (p ∷ ps) (wait ready (publishes p next ∷ r.0), r.1)
unfolding given
cons-InOrder true next p ps (more, o) ((rest, h), w) =
    ((rest, ap (λ x. p ∷ x) h), λ e. ap (λ x. p ∷ x) (w e))
cons-InOrder false next p ps (more, o) ((rest, h), w) =
    ((rest, ap (λ x. p ∷ x) h), λ e. ap (λ x. p ∷ x) (w e))

publish_all-InOrder :
    (channel : ℕ → Publication → Outcome Bool) (k : ℕ) (ready : Bool) (ps : List Publication)
    → InOrder ps (publish_all channel k ready ps)
unfolding publish_all given
publish_all-InOrder channel k ready [] = (([], refl), λ h. refl)
publish_all-InOrder channel k ready (p ∷ ps) = elim (outcome_cases (channel k p)) [
  | inl (m, e) ↦
      subst (InOrder (p ∷ ps)) (sym (publish_all-raised channel k ready p ps m e))
        ((p ∷ ps, ap (λ x. x ++ p ∷ ps) (given-wait ready [])), λ h. absurd (grind arith))
  | inr (next, e) ↦ subst (InOrder (p ∷ ps)) (sym (publish_all-done channel k ready next p ps e)) (
      cons-InOrder ready next p ps (publish_all channel (suc k) next ps)
        (publish_all-InOrder channel (suc k) next ps))
]

-- A batch on an open channel gives the channel its events in order, and never while the channel's last answer
-- was that its buffer is full: it waits first until the buffer is drained. Where it throws, a first part of the
-- events has been given; where it returns, all of them.
pub publish_batch-IsDrained :
    (channel : ℕ → Publication → Outcome Bool) (c : ℕ) (now : QueueEvent → ℕ)
    (exchange key : String) (o : PublishOptions) (events : List QueueEvent)
    → let (actions, outcome) = publish_batch channel (some c) now exchange key o events in
      let all_of_them = map (λ e. batch_publication (now e) exchange key o e) events in
      IsDrained true actions
      × (IsPrefix (given actions) all_of_them × (outcome ≡ done tt → given actions ≡ all_of_them))
unfolding publish_batch
publish_batch-IsDrained channel c now exchange key o events =
    let ps = map (λ e. batch_publication (now e) exchange key o e) events in
    (publish_all-IsDrained channel 0 true ps, publish_all-InOrder channel 0 true ps)
