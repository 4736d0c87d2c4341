-- ===== src/Pipeline/IntrusionDetector/Pruning.antt =====
-- Forgetting old alerts cannot be observed.
use real_time_surveillance_a.Base.{
  ℕ, ◌+◌, ◌≤◌, max, String, ◌≡◌, refl, ap, ◌∙◌, inl, inr, true, false, Option, none, some, List, [],
  ◌∷◌, ◌++◌, arith, ltb, if◌then◌else◌, Bool-cases, ◌==◌, comparable_nat, comparable_text,
  comparable_pair, All,
}
use mathlib.Core.Path.{ap₂}
use real_time_surveillance_a.Dict.{
  Dict, lookup, insert, drop_if, lookup-insert, HasUniqueKeys, insert-HasUniqueKeys,
  drop_if-HasUniqueKeys, lookup-drop_if, unless,
}
use real_time_surveillance_a.Pipeline.Floats.{Floats}
use real_time_surveillance_a.Pipeline.Types.{ZoneEvent, IntrusionEvent}
use real_time_surveillance_a.Pipeline.IntrusionDetector.{
  AlertKey, IntrusionDetector, is_stale, latest, key_of, alert, raises, check_all, check_since,
  check,
}

-- A detector that never forgets: the last alert of every key.
abbrev pub Memory : Type 0
Memory = AlertKey → Option ℕ

abbrev pub recall : AlertKey → ℕ → Memory → Memory
recall k t memory j = if k == j then some t else memory j

-- The memory of the detector, and of the one that never forgets, at time `now`: they agree, or
-- the alert that was forgotten is no longer in its cooldown.
abbrev pub AgreeAt : ℕ → ℕ → Option ℕ → Option ℕ → Type 0
AgreeAt now cooldown none none = Unit
AgreeAt now cooldown none (some t) = t + cooldown ≤ now
AgreeAt now cooldown (some s) none = ⊥
AgreeAt now cooldown (some s) (some t) = s ≡ t

abbrev pub Agree : ℕ → ℕ → Dict AlertKey ℕ → Memory → Type 0
Agree now cooldown d memory = (k : AlertKey) → AgreeAt now cooldown (lookup k d) (memory k)

insert-Agree :
    (now cooldown : ℕ) (k : AlertKey) (v : ℕ) (d : Dict AlertKey ℕ) (memory : Memory)
    → Agree now cooldown d memory
    → Agree now cooldown (insert k v d) (recall k v memory)
insert-Agree now cooldown k v d memory a j = elim (Bool-cases (k == j)) [
  | inl e ↦ rw (lookup-insert k j v d, e) refl
  | inr e ↦ rw (lookup-insert k j v d, e) (a j)
]

module _ (fl : Floats) where
  unfoldable pub recall_all :
      List String → ℕ → List (ZoneEvent fl) → Memory → List (IntrusionEvent fl) × Memory
  recall_all zone_ids cooldown [] memory = ([], memory)
  recall_all zone_ids cooldown (event ∷ events) memory =
      elim (raises fl zone_ids cooldown (memory (key_of fl event)) event) [
        | false ↦ recall_all zone_ids cooldown events memory
        | true ↦
            let (intrusions, after) =
              recall_all zone_ids cooldown events
                (recall (key_of fl event) event.timestamp memory) in
            (alert fl event ∷ intrusions, after)
      ]

  AgreeAt-raises :
      (zone_ids : List String) (cooldown now : ℕ) (s t : Option ℕ) (event : ZoneEvent fl)
      → event.timestamp ≡ now
      → AgreeAt now cooldown s t
      → raises fl zone_ids cooldown s event ≡ raises fl zone_ids cooldown t event
  AgreeAt-raises zone_ids cooldown now none none event e a = refl
  AgreeAt-raises zone_ids cooldown now none (some t) event e a = ground arith
  AgreeAt-raises zone_ids cooldown now (some s) none event e a = absurd a
  AgreeAt-raises zone_ids cooldown now (some s) (some t) event e a = rw a

  check_all-eq-recall_all :
      (zone_ids : List String) (cooldown now : ℕ) (events : List (ZoneEvent fl))
      (d : Dict AlertKey ℕ) (memory : Memory)
      → All (λ event. event.timestamp ≡ now) events
      → Agree now cooldown d memory
      → HasUniqueKeys d
      → let (intrusions, d') = check_all fl zone_ids cooldown events d in
        let (expected, memory') = recall_all zone_ids cooldown events memory in
        (intrusions ≡ expected) × Agree now cooldown d' memory' × HasUniqueKeys d'
  unfolding check_all recall_all
  check_all-eq-recall_all zone_ids cooldown now [] d memory h a u = (refl, a, u)
  check_all-eq-recall_all zone_ids cooldown now (event ∷ events) d memory h a u =
      let key = key_of fl event in
      let same =
        AgreeAt-raises zone_ids cooldown now (lookup key d) (memory key) event h.0 (a key) in
      elim (Bool-cases (raises fl zone_ids cooldown (memory key) event)) [
        | inl e ↦
            let rest =
              check_all-eq-recall_all zone_ids cooldown now events (insert key event.timestamp d)
                (recall key event.timestamp memory) h.1
                (insert-Agree now cooldown key event.timestamp d memory a)
                (insert-HasUniqueKeys key event.timestamp d u) in
            rw (same, e, check_all, recall_all)
              (ap (λ r. alert fl event ∷ r) rest.0, rest.1, rest.2)
        | inr e ↦
            rw (same, e, check_all, recall_all)
              (check_all-eq-recall_all zone_ids cooldown now events d memory h.1 a u)
      ]

  prune_at :
      (cooldown retention before now : ℕ) (s t : Option ℕ)
      → cooldown ≤ retention
      → before ≤ now
      → AgreeAt before cooldown s t
      → AgreeAt now cooldown (unless (λ last. ltb (last + retention) now) s) t
  prune_at cooldown retention before now none none r l a = tt
  prune_at cooldown retention before now none (some t) r l a = omega arith
  prune_at cooldown retention before now (some s) none r l a = absurd a
  prune_at cooldown retention before now (some s) (some t) r l a = ground arith

  latest_same :
      (now : ℕ) (events : List (ZoneEvent fl))
      → All (λ event. event.timestamp ≡ now) events
      → latest fl now events ≡ now
  unfolding latest
  latest_same now [] h = refl
  latest_same now (event ∷ events) h =
      let top : max now event.timestamp ≡ now = omega (arith, h.0) in
      rw top (latest_same now events h.1)

  latest_from :
      (first now : ℕ) (events : List (ZoneEvent fl))
      → first ≡ now
      → All (λ event. event.timestamp ≡ now) events
      → latest fl first events ≡ now
  latest_from first now events e h = rw e (latest_same now events h)

  -- The batches of zone events, one for each frame, and the instants of the frames.
  abbrev pub Batches : Type 0
  Batches = List (ℕ × List (ZoneEvent fl))

  unfoldable pub check_batches :
      Batches → IntrusionDetector → List (IntrusionEvent fl) × IntrusionDetector
  check_batches [] d = ([], d)
  check_batches ((now, events) ∷ batches) d =
      let (intrusions, d') = check fl events d in
      let (later, d'') = check_batches batches d' in (intrusions ++ later, d'')

  unfoldable pub recall_batches :
      List String → ℕ → Batches → Memory → List (IntrusionEvent fl) × Memory
  recall_batches zone_ids cooldown [] memory = ([], memory)
  recall_batches zone_ids cooldown ((now, events) ∷ batches) memory =
      let (intrusions, memory') = recall_all zone_ids cooldown events memory in
      let (later, memory'') = recall_batches zone_ids cooldown batches memory' in
      (intrusions ++ later, memory'')

  -- The events of a batch carry its instant, and the instants do not go back.
  abbrev pub IsOrdered : ℕ → Batches → Type 0
  IsOrdered before [] = Unit
  IsOrdered before ((now, events) ∷ batches) =
      (before ≤ now) × All (λ event. event.timestamp ≡ now) events × IsOrdered now batches

  abbrev Simulates :
      ℕ
      → ℕ
      → List (IntrusionEvent fl) × Memory
      → List (IntrusionEvent fl) × IntrusionDetector
      → Type 0
  Simulates now cooldown (expected, memory) (intrusions, d) =
      (intrusions ≡ expected) × Agree now cooldown d.last_alert memory × HasUniqueKeys d.last_alert

  later-Agree :
      (before now cooldown : ℕ) (d : Dict AlertKey ℕ) (memory : Memory)
      → before ≤ now
      → Agree before cooldown d memory
      → Agree now cooldown d memory
  later-Agree before now cooldown d memory l a k = later_at (lookup k d) (memory k) (a k)
    where
      later_at : (s t : Option ℕ) → AgreeAt before cooldown s t → AgreeAt now cooldown s t
      later_at none none h = tt
      later_at none (some t) h = omega arith
      later_at (some s) none h = absurd h
      later_at (some s) (some t) h = h

  check_since-Simulates :
      (before now : ℕ) (events : List (ZoneEvent fl)) (d : IntrusionDetector) (memory : Memory)
      → before ≤ now
      → All (λ event. event.timestamp ≡ now) events
      → d.cooldown ≤ d.retention
      → Agree before d.cooldown d.last_alert memory
      → HasUniqueKeys d.last_alert
      → Simulates now d.cooldown
          (recall_all d.zone_ids d.cooldown events memory)
          (check_since fl now events d)
  unfolding check_since
  check_since-Simulates before now events d memory l h r a u =
      let stale = is_stale d now none in
      let pruned = drop_if stale d.last_alert in
      let agree : Agree now d.cooldown pruned memory = λ k.
        rw (lookup-drop_if stale k d.last_alert u) (
          prune_at d.cooldown d.retention before now (lookup k d.last_alert) (memory k) r l
            (a k)) in
      let step =
        check_all-eq-recall_all d.zone_ids d.cooldown now events pruned memory h agree
          (drop_if-HasUniqueKeys stale d.last_alert u) in
      (step.0, step.1, step.2)

  check-Simulates :
      (before now : ℕ) (events : List (ZoneEvent fl)) (d : IntrusionDetector) (memory : Memory)
      → before ≤ now
      → All (λ event. event.timestamp ≡ now) events
      → d.cooldown ≤ d.retention
      → Agree before d.cooldown d.last_alert memory
      → HasUniqueKeys d.last_alert
      → Simulates now d.cooldown
          (recall_all d.zone_ids d.cooldown events memory)
          (check fl events d)
  unfolding check
  check-Simulates before now [] d memory l h r a u =
      unfold recall_all in (refl, later-Agree before now d.cooldown d.last_alert memory l a, u)
  check-Simulates before now (event ∷ events) d memory l h r a u =
      rw (latest_from event.timestamp now events h.0 h.1)
        (check_since-Simulates before now (event ∷ events) d memory l h r a u)

  check-config :
      (events : List (ZoneEvent fl)) (d : IntrusionDetector)
      → (check fl events d).1 ≡ record d { last_alert = (check fl events d).1.last_alert }
  unfolding check check_since
  check-config [] d = refl
  check-config (event ∷ events) d = refl

  check_batches-Simulates :
      (before : ℕ) (batches : Batches) (d : IntrusionDetector) (memory : Memory)
      → IsOrdered before batches
      → d.cooldown ≤ d.retention
      → Agree before d.cooldown d.last_alert memory
      → HasUniqueKeys d.last_alert
      → (check_batches batches d).0 ≡ (recall_batches d.zone_ids d.cooldown batches memory).0
  unfolding check_batches recall_batches
  check_batches-Simulates before [] d memory o r a u = refl
  check_batches-Simulates before ((now, events) ∷ batches) d memory o r a u =
      let step = check-Simulates before now events d memory o.0 o.1 r a u in
      let rest =
        check_batches-Simulates now batches
          (record d { last_alert = (check fl events d).1.last_alert })
          (recall_all d.zone_ids d.cooldown events memory).1 o.2 r step.1 step.2 in
      ap₂ ◌++◌ step.0 (ap (λ x. (check_batches batches x).0) (check-config events d) ∙ rest)

  -- Dropping old alerts cannot be observed. Whatever batches of zone events come, if the events
  -- of a batch carry one instant and the instants do not go back, a detector that holds no alert
  -- and retains alerts for at least the cooldown raises the alerts of the detector that never
  -- forgets: one for each qualifying entry whose key had no alert within the cooldown.
  pub check_batches-eq-recall_batches :
      (batches : Batches) (d : IntrusionDetector)
      → IsOrdered 0 batches
      → d.cooldown ≤ d.retention
      → d.last_alert ≡ []
      → (check_batches batches d).0 ≡ (recall_batches d.zone_ids d.cooldown batches (λ k. none)).0
  check_batches-eq-recall_batches batches d o r e =
      check_batches-Simulates 0 batches d (λ k. none) o r (rw e (λ k. unfold lookup in tt))
        (rw e tt)
