-- ===== src/Desktop/Store/Keys.antt =====
-- No transaction gives two rows of the queue one primary key.
use real_time_surveillance_a.Base.{
  ℕ, String, ◌≡◌, inl, inr, Bool, not, ◌&&◌, ◌||◌, Option, none, some, List, [], ◌∷◌, arith, leb,
  Bool-cases, if_elim, Option-cases, ◌==◌, comparable_nat, comparable_text, comparable_pair, length,
  Result-cases,
}
use real_time_surveillance_a.Dict.{lookup, HasUniqueKeys, insert-HasUniqueKeys}
use real_time_surveillance_a.Desktop.Rows.{rowcount, update_where-HasUniqueKeys}
use real_time_surveillance_a.Desktop.Queue.{Payload, Queue, latest, replaceable, enqueue}
use real_time_surveillance_a.Desktop.Queue.Claims.{requeue_expired, claim, claim_rows}
use real_time_surveillance_a.Desktop.Queue.Outcomes.{
  is_owned, complete_row, fail, retry_dead_letter, discard_dead_letter,
}
use real_time_surveillance_a.Desktop.Store.State.{Database}
use real_time_surveillance_a.Desktop.Store.Sessions.{
  save, update_current, replace_active, mark_revocation_pending, begin_revocation,
  enqueue_revocation, set_error, clear, complete_revocation, cancel_revocations, revocation_payload,
  revoke_session,
}
use real_time_surveillance_a.Desktop.Store.Cameras.{
  Texts, create, update_camera, delete, cancel_unsent, waiting_row, camera_key, complete_camera,
}
use real_time_surveillance_a.Desktop.Store.Readings.{insertion_dependency, add_reading, complete}
use real_time_surveillance_a.Desktop.Store.Steps.{Step, perform, run}
use real_time_surveillance_a.Desktop.Store.Kept.{mark_synced-queue, update_current-queue}

enqueue-HasUniqueKeys :
    (now : ℕ) (fresh endpoint : String) (payload : Payload) (key : String) (attempts : ℕ)
    (depends : Option String) (q : Queue)
    → HasUniqueKeys q
    → HasUniqueKeys (enqueue now fresh endpoint payload key attempts depends q).1
unfolding enqueue
enqueue-HasUniqueKeys now fresh endpoint payload key attempts depends q h =
    elim (Option-cases (replaceable (latest key q))) [
      | inl e ↦ rw (e, enqueue) (insert-HasUniqueKeys fresh _ q h)
      | inr (j, e) ↦ rw (e, enqueue) (update_where-HasUniqueKeys _ _ q h)
    ]

fail-HasUniqueKeys :
    (id token owner : String) (now : ℕ) (code message : String) (permanently : Bool) (q : Queue)
    → HasUniqueKeys q
    → HasUniqueKeys (fail id token owner now code message permanently q).1
unfolding fail
fail-HasUniqueKeys id token owner now code message permanently q h =
    if_elim {A = Bool × Queue} (λ o. HasUniqueKeys o.1)
      (rowcount (is_owned id token owner now) q == 0) _ _ (λ e. h)
      λ e. update_where-HasUniqueKeys _ _ q h

-- `KeysUnique` of what a transaction leaves.
abbrev KeysUnique : Database → Type 0
KeysUnique db = HasUniqueKeys db.queue

choice-HasUniqueKeys :
    (o w : Option String) (plain : Queue) (f : String → Queue)
    → HasUniqueKeys plain
    → ((j : String) → HasUniqueKeys (f j))
    → HasUniqueKeys
        (elim o as (λ x. Queue) [ some s ↦ plain | none ↦ elim w [ some j ↦ f j | none ↦ plain ] ])
choice-HasUniqueKeys (some s) w plain f a b = a
choice-HasUniqueKeys none (some j) plain f a b = b j
choice-HasUniqueKeys none none plain f a b = a

set_error-queue :
    (now generation : ℕ) (code : String) (db : Database)
    → (set_error now generation code db).queue ≡ db.queue
unfolding set_error
set_error-queue now generation code db = ground arith

clear-queue : (expected : Option ℕ) (db : Database) → (clear expected db).1.queue ≡ db.queue
unfolding clear
clear-queue expected db = ground arith

module _ (texts : Texts) (db : Database) (h : KeysUnique db) where
  completes :
      (id token owner : String) (now : ℕ)
      → HasUniqueKeys (complete_row id token owner now db.queue).1
  unfolding complete_row
  completes id token owner now = update_where-HasUniqueKeys _ _ db.queue h

  perform-HasUniqueKeys : (step : Step) → HasUniqueKeys (perform texts step db).queue
  unfolding perform save cancel_revocations replace_active mark_revocation_pending begin_revocation
      enqueue_revocation create update_camera delete cancel_unsent add_reading claim claim_rows
      requeue_expired complete complete_camera complete_revocation retry_dead_letter
      discard_dead_letter
  perform-HasUniqueKeys (Step.saves now encrypted user valid) = elim (Bool-cases (user == "")) [
    | inl e ↦ rw (e, perform, save) h
    | inr e ↦ rw (e, perform, save) (update_where-HasUniqueKeys _ _ db.queue h)
  ]
  perform-HasUniqueKeys (Step.replaces now encrypted valid expected) = rw update_current-queue h
  perform-HasUniqueKeys (Step.marks now expected) = rw update_current-queue h
  perform-HasUniqueKeys (Step.begins_revocation now token fresh body expected attempts seconds) =
      let before = update_current expected (revoke_session now) db in
      let kept : HasUniqueKeys before.1.queue =
        rw (update_current-queue expected (revoke_session now) db) h in
      if_elim {A = Option (ℕ × String × String) × Database} (λ o. KeysUnique o.1) before.0 _ _
        (λ e. update_where-HasUniqueKeys _ _ _ (
          enqueue-HasUniqueKeys now fresh "/api/v1/auth/logout" (revocation_payload body)
            "session:revoke" attempts none before.1.queue kept))
        λ e. kept
  perform-HasUniqueKeys (Step.enqueues_revocation now fresh body attempts) =
      enqueue-HasUniqueKeys now fresh _ _ _ attempts none db.queue h
  perform-HasUniqueKeys (Step.sets_error now generation code) = rw set_error-queue h
  perform-HasUniqueKeys (Step.clears expected) = rw clear-queue h
  perform-HasUniqueKeys (Step.creates now fresh id camera cameras attempts) =
      elim (Bool-cases (leb cameras (length db.cameras))) [
        | inl e ↦ rw (e, perform, create) h
        | inr e ↦
            rw (e, perform, create) (enqueue-HasUniqueKeys now fresh _ _ _ attempts none db.queue h)
      ]
  perform-HasUniqueKeys (Step.updates now fresh id changes attempts) =
      elim (Option-cases (lookup id db.cameras)) [
        | inl e ↦ rw (e, perform, update_camera) h
        | inr (c, e) ↦
            rw (e, perform, update_camera)
              (enqueue-HasUniqueKeys now fresh _ _ _ attempts none db.queue h)
      ]
  perform-HasUniqueKeys (Step.deletes now fresh id attempts) =
      elim (Option-cases (lookup id db.cameras)) [
        | inl e ↦ rw (e, perform, delete) h
        | inr (c, e) ↦
            rw (e, perform, delete)
              (choice-HasUniqueKeys c.server_id
                (waiting_row texts (latest (camera_key texts id) db.queue)) _
                (λ j. cancel_unsent texts now j db.queue)
                (enqueue-HasUniqueKeys now fresh _ _ _ attempts none db.queue h)
                λ j. update_where-HasUniqueKeys _ _ db.queue h)
      ]
  perform-HasUniqueKeys (Step.adds kind now fresh reading camera content body attempts) =
      elim (Result-cases (insertion_dependency kind texts.concat reading camera db)) [
        | inr (x, e) ↦ rw (e, perform, add_reading) h
        | inl (dependency, e) ↦
            rw (e, perform, add_reading)
              (enqueue-HasUniqueKeys now fresh _ _ _ attempts dependency db.queue h)
      ]
  perform-HasUniqueKeys (Step.claims token owner now seconds limit key) =
      elim (Bool-cases (owner == "" || not (leb 1 limit && leb limit 500))) [
        | inl e ↦ rw (e, perform, claim) h
        | inr e ↦
            rw (e, perform, claim)
              (update_where-HasUniqueKeys _ _ _ (update_where-HasUniqueKeys _ _ db.queue h))
      ]
  perform-HasUniqueKeys (Step.completes now id token owner) =
      if_elim {A = Bool × Database} (λ o. KeysUnique o.1)
        (complete_row id token owner now db.queue).0 _ _
        (λ e. elim (Option-cases (lookup id db.queue)) [
          | inl e ↦ rw e (completes id token owner now)
          | inr (i, e) ↦ rw (e, mark_synced-queue) (completes id token owner now)
        ])
        λ e. completes id token owner now
  perform-HasUniqueKeys (Step.completes_camera now id token owner local server) =
      if_elim {A = Bool × Database} (λ o. KeysUnique o.1)
        (complete_row id token owner now db.queue).0 _ _ (λ e. completes id token owner now)
        λ e. completes id token owner now
  perform-HasUniqueKeys (Step.completes_revocation now id token owner generation) =
      if_elim {A = Bool × Database} (λ o. KeysUnique o.1)
        (complete_row id token owner now db.queue).0 _ _ (λ e. completes id token owner now)
        λ e. completes id token owner now
  perform-HasUniqueKeys (Step.fails id token owner now code message permanently) =
      fail-HasUniqueKeys id token owner now code message permanently db.queue h
  perform-HasUniqueKeys (Step.retries now id) = update_where-HasUniqueKeys _ _ db.queue h
  perform-HasUniqueKeys (Step.discards now id) = update_where-HasUniqueKeys _ _ db.queue h

pub run-HasUniqueKeys :
    (texts : Texts) (steps : List Step) (db : Database)
    → HasUniqueKeys db.queue
    → HasUniqueKeys (run texts steps db).queue
unfolding run
run-HasUniqueKeys texts [] db h = h
run-HasUniqueKeys texts (step ∷ steps) db h =
    run-HasUniqueKeys texts steps (perform texts step db) (perform-HasUniqueKeys texts db h step)
