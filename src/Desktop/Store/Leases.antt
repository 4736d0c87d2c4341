-- ===== src/Desktop/Store/Leases.antt =====
-- A lease protects its row until it runs out, and what is closed stays closed.
use real_time_surveillance_a.Base.{
  ℕ, String, ◌≡◌, ap, Bool, true, false, not, ◌&&◌, Option, none, some, List, [], ◌∷◌, arith, leb,
  is_some, ◌==◌, comparable_nat, comparable_text, comparable_pair, All, All-map,
}
use text.Mathlib.TextEquality.{eq_iff}
use real_time_surveillance_a.Desktop.Rows.{holds}
use real_time_surveillance_a.Desktop.Queue.{inflight, Item, same_state, same_text, is_claimed_by}
use real_time_surveillance_a.Desktop.Queue.Claims.{is_closed, is_expired}
use real_time_surveillance_a.Desktop.Queue.Held.{is_held}
use real_time_surveillance_a.Desktop.Queue.Rests.{IsAtRest}
use real_time_surveillance_a.Desktop.Store.State.{Database}
use real_time_surveillance_a.Desktop.Store.Cameras.{Texts}
use real_time_surveillance_a.Desktop.Store.Steps.{Step, run, BringsNew}
use real_time_surveillance_a.Desktop.Store.Kept.{Spares, run-holds}

-- Succeeded or cancelled, and in nobody's hands.
abbrev pub is_settled : Item → Bool
is_settled i = is_closed i.state && not (is_some i.claim_token)

settled_unclaimed :
    (token owner : String) (i : Item) → is_settled i ≡ true → is_claimed_by token owner i ≡ false
settled_unclaimed token owner i h = ground arith

settled_closed : (i : Item) → is_settled i ≡ true → same_state i.state inflight ≡ false
settled_closed i h = ground arith

is_settled-IsAtRest : IsAtRest is_settled
is_settled-IsAtRest i h = ground arith

is_held-IsAtRest : (token owner : String) (until : ℕ) → IsAtRest (is_held token owner until)
is_held-IsAtRest token owner until i h = ground arith

-- The step is another's: it comes before the lease runs out, and neither completes nor fails the
-- row under the lease's token.
abbrev pub is_others : String → String → String → ℕ → Step → Bool
is_others id token owner until (Step.claims t o now seconds limit key) = leb now until
is_others id token owner until (Step.completes now item t o) =
    not (id == item && token == t && owner == o)
is_others id token owner until (Step.completes_camera now item t o local server) =
    not (id == item && token == t && owner == o)
is_others id token owner until (Step.completes_revocation now item t o generation) =
    not (id == item && token == t && owner == o)
is_others id token owner until (Step.fails item t o now code message permanently) =
    not (id == item && token == t && owner == o)
is_others id token owner until _ = true

same_text-eq : (text : Option String) (t : String) → same_text text t ≡ true → text ≡ some t
same_text-eq none t h = ground arith
same_text-eq (some s) t h = ap some ((eq_iff s t).0 h)

held_not_named :
    (id item token owner t o : String) (until : ℕ) (i : Item)
    → is_held token owner until i ≡ true
    → not (id == item && token == t && owner == o) ≡ true
    → id == item && is_claimed_by t o i ≡ false
held_not_named id item token owner t o until i h a = ground (
  arith,
  eq_iff token t,
  eq_iff owner o,
  same_text-eq i.claim_token t,
  same_text-eq i.claim_token token,
  same_text-eq i.lease_owner o,
  same_text-eq i.lease_owner owner,
)

held_not_shown :
    (id item token owner t o : String) (until : ℕ) (i : Item)
    → is_held token owner until i ≡ true
    → not (id == item && token == t && owner == o) ≡ true
    → id == item && is_claimed_by t o i && same_state i.state inflight ≡ false
held_not_shown id item token owner t o until i h a =
    ground (arith, held_not_named id item token owner t o until i h a)

module _ (texts : Texts) where
  is_settled-Spares :
      (id : String) (step : Step) → Spares texts is_settled is_settled-IsAtRest id step
  unfolding is_expired
  is_settled-Spares id (Step.claims t o now seconds limit key) = λ i h. ground arith
  is_settled-Spares id (Step.completes now item t o) =
      λ i h. ground (arith, settled_unclaimed t o i h)
  is_settled-Spares id (Step.completes_camera now item t o local server) =
      λ i h. ground (arith, settled_unclaimed t o i h)
  is_settled-Spares id (Step.completes_revocation now item t o generation) =
      λ i h. ground (arith, settled_unclaimed t o i h)
  is_settled-Spares id (Step.fails item t o now code message permanently) =
      λ i h. ground (arith, settled_unclaimed t o i h)
  is_settled-Spares id (Step.saves now encrypted user valid) = tt
  is_settled-Spares id (Step.replaces now encrypted valid expected) = tt
  is_settled-Spares id (Step.marks now expected) = tt
  is_settled-Spares id (Step.begins_revocation now token fresh body expected attempts seconds) = tt
  is_settled-Spares id (Step.enqueues_revocation now fresh body attempts) = tt
  is_settled-Spares id (Step.sets_error now generation code) = tt
  is_settled-Spares id (Step.clears expected) = tt
  is_settled-Spares id (Step.creates now fresh camera_id camera cameras attempts) = tt
  is_settled-Spares id (Step.updates now fresh camera_id changes attempts) = tt
  is_settled-Spares id (Step.deletes now fresh camera_id attempts) = tt
  is_settled-Spares id (Step.adds kind now fresh reading camera content body attempts) = tt
  is_settled-Spares id (Step.retries now item) = tt
  is_settled-Spares id (Step.discards now item) = tt

  -- A request that succeeded, or that was cancelled while nobody held it, stays so through every
  -- schedule of transactions but purging that brings new ids: nothing sends it again.
  pub run-is_settled :
      (steps : List Step) (id : String) (db : Database)
      → BringsNew texts steps db
      → holds is_settled id db.queue ≡ true
      → holds is_settled id (run texts steps db).queue ≡ true
  run-is_settled steps id db new h =
      run-holds texts is_settled is_settled-IsAtRest steps id db new (all_spare steps) h
    where
      all_spare : (steps : List Step) → All (Spares texts is_settled is_settled-IsAtRest id) steps
      all_spare [] = tt
      all_spare (step ∷ rest) = (is_settled-Spares id step, all_spare rest)

  is_held-Spares :
      (id token owner : String) (until : ℕ) (step : Step)
      → is_others id token owner until step ≡ true
      → Spares texts (is_held token owner until) (is_held-IsAtRest token owner until) id step
  unfolding is_expired
  is_held-Spares id token owner until (Step.claims t o now seconds limit key) a =
      λ i h. ground arith
  is_held-Spares id token owner until (Step.completes now item t o) a =
      λ i h. held_not_shown id item token owner t o until i h a
  is_held-Spares id token owner until (Step.completes_camera now item t o local server) a =
      λ i h. held_not_shown id item token owner t o until i h a
  is_held-Spares id token owner until (Step.completes_revocation now item t o generation) a =
      λ i h. held_not_shown id item token owner t o until i h a
  is_held-Spares id token owner until (Step.fails item t o now code message permanently) a =
      λ i h. held_not_named id item token owner t o until i h a
  is_held-Spares id token owner until (Step.saves now encrypted user valid) a = tt
  is_held-Spares id token owner until (Step.replaces now encrypted valid expected) a = tt
  is_held-Spares id token owner until (Step.marks now expected) a = tt
  is_held-Spares id token owner until
        (Step.begins_revocation now t fresh body expected attempts seconds) a =
      tt
  is_held-Spares id token owner until (Step.enqueues_revocation now fresh body attempts) a = tt
  is_held-Spares id token owner until (Step.sets_error now generation code) a = tt
  is_held-Spares id token owner until (Step.clears expected) a = tt
  is_held-Spares id token owner until (Step.creates now fresh camera_id camera cameras attempts) a =
      tt
  is_held-Spares id token owner until (Step.updates now fresh camera_id changes attempts) a = tt
  is_held-Spares id token owner until (Step.deletes now fresh camera_id attempts) a = tt
  is_held-Spares id token owner until
        (Step.adds kind now fresh reading camera content body attempts) a =
      tt
  is_held-Spares id token owner until (Step.retries now item) a = tt
  is_held-Spares id token owner until (Step.discards now item) a = tt

  -- Until its lease runs out, a row that was handed out stays with its owner, whatever
  -- transactions but purging other tasks run: they may claim, complete or fail other rows, or this
  -- one under other tokens. Fresh ids are new.
  pub run-is_held :
      (steps : List Step) (id token owner : String) (until : ℕ) (db : Database)
      → BringsNew texts steps db
      → All (λ step. is_others id token owner until step ≡ true) steps
      → holds (is_held token owner until) id db.queue ≡ true
      → holds (is_held token owner until) id (run texts steps db).queue ≡ true
  run-is_held steps id token owner until db new others h =
      run-holds texts (is_held token owner until) (is_held-IsAtRest token owner until) steps id db
        new (All-map _ _ steps (is_held-Spares id token owner until) others) h
