-- ===== src/Desktop/Store/Untouched.antt =====
-- The transactions that leave the row of the session alone.
use real_time_surveillance_a.Base.{
  ℕ, String, ◌≡◌, refl, inl, inr, Bool, true, false, not, ◌&&◌, ◌||◌, Option, leb, Bool-cases,
  if_elim, Option-cases, ◌==◌, comparable_nat, comparable_text, comparable_pair, length,
  Result-cases,
}
use real_time_surveillance_a.Dict.{Dict, lookup}
use real_time_surveillance_a.Desktop.Queue.Claims.{claim}
use real_time_surveillance_a.Desktop.Queue.Outcomes.{complete_row}
use real_time_surveillance_a.Desktop.Store.State.{Reading, Database}
use real_time_surveillance_a.Desktop.Store.Sessions.{enqueue_revocation}
use real_time_surveillance_a.Desktop.Store.Cameras.{
  NewCamera, CameraChanges, Texts, create, update_camera, delete, complete_camera,
}
use real_time_surveillance_a.Desktop.Store.Readings.{
  Kind, event, alert, count, kind_of, with_table, mark_synced, insertion_dependency, add_reading,
  complete,
}
use real_time_surveillance_a.Desktop.Store.Steps.{Step, or_kept, with_queue, perform}

with_table-session :
    (kind : Kind) (t : Dict String Reading) (db : Database)
    → (with_table kind t db).session ≡ db.session
with_table-session event t db = refl
with_table-session alert t db = refl
with_table-session count t db = refl

mark_synced-session : (key : String) (db : Database) → (mark_synced key db).session ≡ db.session
unfolding mark_synced
mark_synced-session key db = elim (Option-cases (kind_of key)) [
  | inl e ↦ rw (e, mark_synced) refl
  | inr (kind, e) ↦ rw (e, mark_synced) (with_table-session kind _ db)
]

-- The steps that write the row of the session.
abbrev pub is_session_step : Step → Bool
is_session_step (Step.saves now encrypted user valid) = true
is_session_step (Step.replaces now encrypted valid expected) = true
is_session_step (Step.marks now expected) = true
is_session_step (Step.begins_revocation now token fresh body expected attempts seconds) = true
is_session_step (Step.sets_error now generation code) = true
is_session_step (Step.clears expected) = true
is_session_step (Step.completes_revocation now id token owner generation) = true
is_session_step _ = false

module _ (texts : Texts) (db : Database) where
  create-session :
      (now : ℕ) (fresh id : String) (camera : NewCamera) (cameras attempts : ℕ)
      → (or_kept (λ r. r.1) db (create texts now fresh id camera cameras attempts db)).session
        ≡ db.session
  unfolding create
  create-session now fresh id camera cameras attempts =
      elim (Bool-cases (leb cameras (length db.cameras))) [
        | inl e ↦ rw (e, create) refl
        | inr e ↦ rw (e, create) refl
      ]

  update_camera-session :
      (now : ℕ) (fresh id : String) (changes : CameraChanges) (attempts : ℕ)
      → (update_camera texts now fresh id changes attempts db).1.session ≡ db.session
  unfolding update_camera
  update_camera-session now fresh id changes attempts = elim (Option-cases (lookup id db.cameras)) [
    | inl e ↦ rw (e, update_camera) refl
    | inr (c, e) ↦ rw (e, update_camera) refl
  ]

  delete-session :
      (now : ℕ) (fresh id : String) (attempts : ℕ)
      → (delete texts now fresh id attempts db).1.session ≡ db.session
  unfolding delete
  delete-session now fresh id attempts = elim (Option-cases (lookup id db.cameras)) [
    | inl e ↦ rw (e, delete) refl
    | inr (c, e) ↦ rw (e, delete) refl
  ]

  add_reading-session :
      (kind : Kind) (now : ℕ) (fresh reading camera content body : String) (attempts : ℕ)
      → (or_kept
          (λ d. d)
          db
          (add_reading kind texts.concat now fresh reading camera content body attempts db)).session
        ≡ db.session
  unfolding add_reading
  add_reading-session kind now fresh reading camera content body attempts =
      elim (Result-cases (insertion_dependency kind texts.concat reading camera db)) [
        | inr (x, e) ↦ rw (e, add_reading) refl
        | inl (dependency, e) ↦ rw (e, add_reading) (with_table-session kind _ db)
      ]

  claim-session :
      (token owner : String) (now seconds limit : ℕ) (key : Option String)
      → (or_kept
          (λ r. with_queue r.1 db)
          db
          (claim token owner now seconds limit key db.queue)).session
        ≡ db.session
  unfolding claim
  claim-session token owner now seconds limit key =
      elim (Bool-cases (owner == "" || not (leb 1 limit && leb limit 500))) [
        | inl e ↦ rw (e, claim) refl
        | inr e ↦ rw (e, claim) refl
      ]

  complete-session :
      (now : ℕ) (id token owner : String) → (complete now id token owner db).1.session ≡ db.session
  unfolding complete
  complete-session now id token owner =
      if_elim {A = Bool × Database} (λ o. o.1.session ≡ db.session)
        (complete_row id token owner now db.queue).0 _ _
        (λ e. elim (Option-cases (lookup id db.queue)) [
          | inl e ↦ rw e refl
          | inr (i, e) ↦ rw (e, mark_synced-session) refl
        ])
        λ e. refl

  complete_camera-session :
      (now : ℕ) (id token owner local server : String)
      → (complete_camera texts now id token owner local server db).1.session ≡ db.session
  unfolding complete_camera
  complete_camera-session now id token owner local server =
      if_elim {A = Bool × Database} (λ o. o.1.session ≡ db.session)
        (complete_row id token owner now db.queue).0 _ _ (λ e. refl) λ e. refl

  pub perform-session :
      (step : Step) → is_session_step step ≡ false → (perform texts step db).session ≡ db.session
  unfolding perform enqueue_revocation
  perform-session (Step.enqueues_revocation now fresh body attempts) h = refl
  perform-session (Step.creates now fresh id camera cameras attempts) h =
      create-session now fresh id camera cameras attempts
  perform-session (Step.updates now fresh id changes attempts) h =
      update_camera-session now fresh id changes attempts
  perform-session (Step.deletes now fresh id attempts) h = delete-session now fresh id attempts
  perform-session (Step.adds kind now fresh reading camera content body attempts) h =
      add_reading-session kind now fresh reading camera content body attempts
  perform-session (Step.claims token owner now seconds limit key) h =
      claim-session token owner now seconds limit key
  perform-session (Step.completes now id token owner) h = complete-session now id token owner
  perform-session (Step.completes_camera now id token owner local server) h =
      complete_camera-session now id token owner local server
  perform-session (Step.fails id token owner now code message permanently) h = refl
  perform-session (Step.retries now id) h = refl
  perform-session (Step.discards now id) h = refl
  perform-session (Step.saves now encrypted user valid) h = cc
  perform-session (Step.replaces now encrypted valid expected) h = cc
  perform-session (Step.marks now expected) h = cc
  perform-session (Step.begins_revocation now token fresh body expected attempts seconds) h = cc
  perform-session (Step.sets_error now generation code) h = cc
  perform-session (Step.clears expected) h = cc
  perform-session (Step.completes_revocation now id token owner generation) h = cc
