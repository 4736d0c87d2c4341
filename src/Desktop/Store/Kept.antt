-- ===== src/Desktop/Store/Kept.antt =====
-- What a row of the queue keeps through every schedule of transactions.
use real_time_surveillance_a.Base.{
  ℕ, String, ◌≡◌, refl, inl, inr, Bool, true, false, not, ◌&&◌, ◌||◌, Option, none, some, List, [],
  ◌∷◌, arith, leb, Bool-cases, if_elim, Option-cases, ◌==◌, comparable_nat, comparable_text,
  comparable_pair, length, All, Result-cases,
}
use real_time_surveillance_a.Dict.{lookup}
use real_time_surveillance_a.Desktop.Rows.{holds}
use real_time_surveillance_a.Desktop.Queue.{
  inflight, Item, Queue, same_state, latest, is_claimed_by,
}
use real_time_surveillance_a.Desktop.Queue.Claims.{is_expired, claim}
use real_time_surveillance_a.Desktop.Queue.Outcomes.{complete_row}
use real_time_surveillance_a.Desktop.Queue.Rests.{
  IsAtRest, waiting_update-holds, enqueue-holds, complete_row-holds, fail-holds,
  retry_dead_letter-holds, discard_dead_letter-holds, claim_rows-holds,
}
use real_time_surveillance_a.Desktop.Store.State.{Database, Session}
use real_time_surveillance_a.Desktop.Store.Sessions.{
  save, update_current, replace_active, mark_revocation_pending, begin_revocation,
  enqueue_revocation, set_error, clear, complete_revocation, revoke_session, revocation_payload,
  cancel_revocations,
}
use real_time_surveillance_a.Desktop.Store.Cameras.{
  NewCamera, CameraChanges, Texts, create, update_camera, delete, cancel_unsent, waiting_row,
  camera_key, complete_camera,
}
use real_time_surveillance_a.Desktop.Store.Readings.{
  Kind, event, alert, count, kind_of, mark_synced, insertion_dependency, add_reading, complete,
}
use real_time_surveillance_a.Desktop.Store.Steps.{
  Step, or_kept, with_queue, perform, run, fresh_id, IsNew, BringsNew,
}

pub mark_synced-queue : (key : String) (db : Database) → (mark_synced key db).queue ≡ db.queue
unfolding mark_synced
mark_synced-queue key db = elim (Option-cases (kind_of key)) [
  | inl e ↦ rw (e, mark_synced) refl
  | inr (event, e) ↦ rw (e, mark_synced) refl
  | inr (alert, e) ↦ rw (e, mark_synced) refl
  | inr (count, e) ↦ rw (e, mark_synced) refl
]

-- Transactions on the session that leave the queue alone.
pub update_current-queue :
    (expected : ℕ) (f : Session → Session) (db : Database)
    → (update_current expected f db).1.queue ≡ db.queue
unfolding update_current
update_current-queue expected f db = ground arith

module _ (texts : Texts) (q : Item → Bool) (rests : IsAtRest q) where
  -- The step neither lets the lease of the row run out nor settles it.
  abbrev pub Spares : String → Step → Type 0
  Spares id (Step.claims token owner now seconds limit key) =
      (i : Item) → q i ≡ true → is_expired now i ≡ false
  Spares id (Step.completes now item token owner) =
      (i : Item)
      → q i ≡ true
      → id == item && is_claimed_by token owner i && same_state i.state inflight ≡ false
  Spares id (Step.completes_camera now item token owner local server) =
      (i : Item)
      → q i ≡ true
      → id == item && is_claimed_by token owner i && same_state i.state inflight ≡ false
  Spares id (Step.completes_revocation now item token owner generation) =
      (i : Item)
      → q i ≡ true
      → id == item && is_claimed_by token owner i && same_state i.state inflight ≡ false
  Spares id (Step.fails item token owner now code message permanently) =
      (i : Item) → q i ≡ true → id == item && is_claimed_by token owner i ≡ false
  Spares id _ = Unit

  module _ (id : String) (db : Database) (h : holds q id db.queue ≡ true) where
    save-holds :
        (now : ℕ) (encrypted user : String) (valid : Option ℕ)
        → holds q id (or_kept (λ r. r.1) db (save now encrypted user valid db)).queue ≡ true
    unfolding save cancel_revocations
    save-holds now encrypted user valid = elim (Bool-cases (user == "")) [
      | inl e ↦ rw (e, save) h
      | inr e ↦ rw (e, save) (waiting_update-holds q rests id db.queue h _ _ λ k i t. ground arith)
    ]

    begin_revocation-holds :
        (now : ℕ) (token fresh body : String) (expected attempts seconds : ℕ)
        → lookup fresh db.queue ≡ none
        → holds q id (begin_revocation now token fresh body expected attempts seconds db).1.queue
          ≡ true
    unfolding begin_revocation
    begin_revocation-holds now token fresh body expected attempts seconds absent =
        let before = update_current expected (revoke_session now) db in
        let same = update_current-queue expected (revoke_session now) db in
        let kept : holds q id before.1.queue ≡ true = rw same h in
        let queued =
          enqueue-holds q rests id before.1.queue kept now fresh "/api/v1/auth/logout"
            (revocation_payload body) "session:revoke" attempts none (rw same absent) in
        if_elim {A = Option (ℕ × String × String) × Database} (λ o. holds q id o.1.queue ≡ true)
          before.0 _ _ (λ e. waiting_update-holds q rests id _ queued _ _ λ k i t. ground arith)
          λ e. kept

    create-holds :
        (now : ℕ) (fresh camera_id : String) (camera : NewCamera) (cameras attempts : ℕ)
        → lookup fresh db.queue ≡ none
        → holds q id
            (or_kept
              (λ r. r.1)
              db
              (create texts now fresh camera_id camera cameras attempts db)).queue
          ≡ true
    unfolding create
    create-holds now fresh camera_id camera cameras attempts absent =
        elim (Bool-cases (leb cameras (length db.cameras))) [
          | inl e ↦ rw (e, create) h
          | inr e ↦
              rw (e, create)
                (enqueue-holds q rests id db.queue h now fresh _ _ _ attempts none absent)
        ]

    update_camera-holds :
        (now : ℕ) (fresh camera_id : String) (changes : CameraChanges) (attempts : ℕ)
        → lookup fresh db.queue ≡ none
        → holds q id (update_camera texts now fresh camera_id changes attempts db).1.queue ≡ true
    unfolding update_camera
    update_camera-holds now fresh camera_id changes attempts absent =
        elim (Option-cases (lookup camera_id db.cameras)) [
          | inl e ↦ rw (e, update_camera) h
          | inr (c, e) ↦
              rw (e, update_camera)
                (enqueue-holds q rests id db.queue h now fresh _ _ _ attempts none absent)
        ]

    choice-holds :
        (o w : Option String) (plain : Queue) (f : String → Queue)
        → holds q id plain ≡ true
        → ((j : String) → holds q id (f j) ≡ true)
        → holds q id (elim o [ some s ↦ plain | none ↦ elim w [ some j ↦ f j | none ↦ plain ] ])
          ≡ true
    choice-holds (some s) w plain f a b = a
    choice-holds none (some j) plain f a b = b j
    choice-holds none none plain f a b = a

    delete-holds :
        (now : ℕ) (fresh camera_id : String) (attempts : ℕ)
        → lookup fresh db.queue ≡ none
        → holds q id (delete texts now fresh camera_id attempts db).1.queue ≡ true
    unfolding delete cancel_unsent
    delete-holds now fresh camera_id attempts absent =
        elim (Option-cases (lookup camera_id db.cameras)) [
          | inl e ↦ rw (e, delete) h
          | inr (c, e) ↦
              rw (e, delete)
                (choice-holds c.server_id
                  (waiting_row texts (latest (camera_key texts camera_id) db.queue)) _
                  (λ j. cancel_unsent texts now j db.queue)
                  (enqueue-holds q rests id db.queue h now fresh _ _ _ attempts none absent)
                  λ j. waiting_update-holds q rests id db.queue h _ _ λ k i t. ground arith)
        ]

    add_reading-holds :
        (kind : Kind) (now : ℕ) (fresh reading camera content body : String) (attempts : ℕ)
        → lookup fresh db.queue ≡ none
        → holds q id
            (or_kept
              (λ d. d)
              db
              (add_reading kind texts.concat now fresh reading camera content body attempts
                db)).queue
          ≡ true
    unfolding add_reading
    add_reading-holds kind now fresh reading camera content body attempts absent =
        elim (Result-cases (insertion_dependency kind texts.concat reading camera db)) [
          | inr (x, e) ↦ rw (e, add_reading) h
          | inl (dependency, e) ↦
              rw (e, add_reading)
                (enqueue-holds q rests id db.queue h now fresh _ _ _ attempts dependency absent)
        ]

    claim-holds :
        (token owner : String) (now seconds limit : ℕ) (key : Option String)
        → ((i : Item) → q i ≡ true → is_expired now i ≡ false)
        → holds q id
            (or_kept
              (λ r. with_queue r.1 db)
              db
              (claim token owner now seconds limit key db.queue)).queue
          ≡ true
    unfolding claim
    claim-holds token owner now seconds limit key lives =
        elim (Bool-cases (owner == "" || not (leb 1 limit && leb limit 500))) [
          | inl e ↦ rw (e, claim) h
          | inr e ↦
              rw (e, claim)
                (claim_rows-holds q rests id db.queue h token owner now seconds limit key lives)
        ]

    complete-holds :
        (now : ℕ) (item token owner : String)
        → ((i : Item)
            → q i ≡ true
            → id == item && is_claimed_by token owner i && same_state i.state inflight ≡ false)
        → holds q id (complete now item token owner db).1.queue ≡ true
    unfolding complete
    complete-holds now item token owner other =
        let kept = complete_row-holds q rests id db.queue h item token owner now other in
        if_elim {A = Bool × Database} (λ o. holds q id o.1.queue ≡ true)
          (complete_row item token owner now db.queue).0 _ _
          (λ e. elim (Option-cases (lookup item db.queue)) [
            | inl e ↦ rw e kept
            | inr (i, e) ↦ rw (e, mark_synced-queue) kept
          ])
          λ e. kept

    complete_camera-holds :
        (now : ℕ) (item token owner local server : String)
        → ((i : Item)
            → q i ≡ true
            → id == item && is_claimed_by token owner i && same_state i.state inflight ≡ false)
        → holds q id (complete_camera texts now item token owner local server db).1.queue ≡ true
    unfolding complete_camera
    complete_camera-holds now item token owner local server other =
        let kept = complete_row-holds q rests id db.queue h item token owner now other in
        if_elim {A = Bool × Database} (λ o. holds q id o.1.queue ≡ true)
          (complete_row item token owner now db.queue).0 _ _ (λ e. kept) λ e. kept

    complete_revocation-holds :
        (now : ℕ) (item token owner : String) (generation : ℕ)
        → ((i : Item)
            → q i ≡ true
            → id == item && is_claimed_by token owner i && same_state i.state inflight ≡ false)
        → holds q id (complete_revocation now item token owner generation db).1.queue ≡ true
    unfolding complete_revocation
    complete_revocation-holds now item token owner generation other =
        let kept = complete_row-holds q rests id db.queue h item token owner now other in
        if_elim {A = Bool × Database} (λ o. holds q id o.1.queue ≡ true)
          (complete_row item token owner now db.queue).0 _ _ (λ e. kept) λ e. kept

    perform-holds :
        (step : Step)
        → IsNew texts (fresh_id texts step) db
        → Spares id step
        → holds q id (perform texts step db).queue ≡ true
    unfolding perform replace_active mark_revocation_pending enqueue_revocation set_error clear
    perform-holds (Step.saves now encrypted user valid) new spares =
        save-holds now encrypted user valid
    perform-holds (Step.replaces now encrypted valid expected) new spares =
        rw update_current-queue h
    perform-holds (Step.marks now expected) new spares = rw update_current-queue h
    perform-holds (Step.begins_revocation now token fresh body expected attempts seconds) new
          spares =
        begin_revocation-holds now token fresh body expected attempts seconds new
    perform-holds (Step.enqueues_revocation now fresh body attempts) new spares =
        enqueue-holds q rests id db.queue h now fresh _ _ _ attempts none new
    perform-holds (Step.sets_error now generation code) new spares = ground arith
    perform-holds (Step.clears expected) new spares = ground arith
    perform-holds (Step.creates now fresh camera_id camera cameras attempts) new spares =
        create-holds now fresh camera_id camera cameras attempts new
    perform-holds (Step.updates now fresh camera_id changes attempts) new spares =
        update_camera-holds now fresh camera_id changes attempts new
    perform-holds (Step.deletes now fresh camera_id attempts) new spares =
        delete-holds now fresh camera_id attempts new
    perform-holds (Step.adds kind now fresh reading camera content body attempts) new spares =
        add_reading-holds kind now fresh reading camera content body attempts new
    perform-holds (Step.claims token owner now seconds limit key) new spares =
        claim-holds token owner now seconds limit key spares
    perform-holds (Step.completes now item token owner) new spares =
        complete-holds now item token owner spares
    perform-holds (Step.completes_camera now item token owner local server) new spares =
        complete_camera-holds now item token owner local server spares
    perform-holds (Step.completes_revocation now item token owner generation) new spares =
        complete_revocation-holds now item token owner generation spares
    perform-holds (Step.fails item token owner now code message permanently) new spares =
        fail-holds q rests id db.queue h item token owner now code message permanently spares
    perform-holds (Step.retries now item) new spares =
        retry_dead_letter-holds q rests id db.queue h now item
    perform-holds (Step.discards now item) new spares =
        discard_dead_letter-holds q rests id db.queue h now item

  pub run-holds :
      (steps : List Step) (id : String) (db : Database)
      → BringsNew texts steps db
      → All (Spares id) steps
      → holds q id db.queue ≡ true
      → holds q id (run texts steps db).queue ≡ true
  unfolding run
  run-holds [] id db new spares h = h
  run-holds (step ∷ steps) id db new spares h =
      run-holds steps id (perform texts step db) new.1 spares.1
        (perform-holds id db h step new.0 spares.0)
