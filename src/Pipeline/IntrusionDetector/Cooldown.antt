-- ===== src/Pipeline/IntrusionDetector/Cooldown.antt =====
-- Two alerts of one key lie a cooldown apart.
use real_time_surveillance_a.Base.{
  ℕ, ◌+◌, ◌≤◌, String, ◌≡◌, refl, subst, inl, inr, true, Option, none, some, List, [], ◌∷◌, ◌++◌,
  arith, Bool-cases, comparable_nat, comparable_text, comparable_pair,
}
use real_time_surveillance_a.Pipeline.Floats.{Floats}
use real_time_surveillance_a.Pipeline.Types.{ZoneEvent, IntrusionEvent}
use real_time_surveillance_a.Pipeline.IntrusionDetector.{
  AlertKey, IntrusionDetector, key_of, raises,
}
use real_time_surveillance_a.Pipeline.IntrusionDetector.Pruning.{
  Memory, recall, recall_all, Batches, check_batches, recall_batches, IsOrdered,
  check_batches-eq-recall_batches,
}

abbrev pub Elapsed : ℕ → Option ℕ → ℕ → Type 0
Elapsed cooldown none now = Unit
Elapsed cooldown (some previous) now = previous + cooldown ≤ now

module _ (fl : Floats) where
  abbrev alert_key : IntrusionEvent fl → AlertKey
  alert_key i = (i.zone_id, i.track_id)

  -- Each alert comes a cooldown after the alert of its key before it.
  abbrev pub Spaced : ℕ → Memory → List (IntrusionEvent fl) → Type 0
  Spaced cooldown memory [] = Unit
  Spaced cooldown memory (i ∷ intrusions) =
      Elapsed cooldown (memory (alert_key i)) i.timestamp
      × Spaced cooldown (recall (alert_key i) i.timestamp memory) intrusions

  abbrev remember : List (IntrusionEvent fl) → Memory → Memory
  remember [] memory = memory
  remember (i ∷ intrusions) memory = remember intrusions (recall (alert_key i) i.timestamp memory)

  Spaced-append :
      (cooldown : ℕ) (memory : Memory) (xs ys : List (IntrusionEvent fl))
      → Spaced cooldown memory xs
      → Spaced cooldown (remember xs memory) ys
      → Spaced cooldown memory (xs ++ ys)
  Spaced-append cooldown memory [] ys h k = k
  Spaced-append cooldown memory (x ∷ xs) ys h k =
      (h.0, Spaced-append cooldown (recall (alert_key x) x.timestamp memory) xs ys h.1 k)

  raises-Elapsed :
      (zone_ids : List String) (cooldown : ℕ) (previous : Option ℕ) (event : ZoneEvent fl)
      → raises fl zone_ids cooldown previous event ≡ true
      → Elapsed cooldown previous event.timestamp
  raises-Elapsed zone_ids cooldown none event h = tt
  raises-Elapsed zone_ids cooldown (some previous) event h = ground arith

  abbrev Follows : ℕ → Memory → List (IntrusionEvent fl) × Memory → Type 0
  Follows cooldown memory (intrusions, after) =
      Spaced cooldown memory intrusions × (after ≡ remember intrusions memory)

  recall_all-Follows :
      (zone_ids : List String) (cooldown : ℕ) (events : List (ZoneEvent fl)) (memory : Memory)
      → Follows cooldown memory (recall_all fl zone_ids cooldown events memory)
  unfolding recall_all
  recall_all-Follows zone_ids cooldown [] memory = (tt, refl)
  recall_all-Follows zone_ids cooldown (event ∷ events) memory =
      let key = key_of fl event in
      elim (Bool-cases (raises fl zone_ids cooldown (memory key) event)) [
        | inl e ↦
            let rest =
              recall_all-Follows zone_ids cooldown events (recall key event.timestamp memory) in
            rw (e, recall_all)
              ((raises-Elapsed zone_ids cooldown (memory key) event e, rest.0), rest.1)
        | inr e ↦ rw (e, recall_all) (recall_all-Follows zone_ids cooldown events memory)
      ]

  recall_batches-Spaced :
      (zone_ids : List String) (cooldown : ℕ) (batches : Batches fl) (memory : Memory)
      → Spaced cooldown memory (recall_batches fl zone_ids cooldown batches memory).0
  unfolding recall_batches
  recall_batches-Spaced zone_ids cooldown [] memory = tt
  recall_batches-Spaced zone_ids cooldown ((now, events) ∷ batches) memory =
      let here = recall_all-Follows zone_ids cooldown events memory in
      let later =
        recall_batches-Spaced zone_ids cooldown batches
          (recall_all fl zone_ids cooldown events memory).1 in
      Spaced-append cooldown memory _ _ here.0 (
        subst
          (λ m.
            Spaced cooldown m
              (recall_batches fl zone_ids cooldown batches
                (recall_all fl zone_ids cooldown events memory).1).0)
          here.1 later)

  -- Under the same conditions, each alert of a detector that starts with no alert comes at least
  -- the cooldown after the alert before it for the same zone and track.
  pub check_batches-Spaced :
      (batches : Batches fl) (d : IntrusionDetector)
      → IsOrdered fl 0 batches
      → d.cooldown ≤ d.retention
      → d.last_alert ≡ []
      → Spaced d.cooldown (λ k. none) (check_batches fl batches d).0
  check_batches-Spaced batches d o r e =
      rw (check_batches-eq-recall_batches fl batches d o r e)
        (recall_batches-Spaced d.zone_ids d.cooldown batches (λ k. none))
