-- ===== src/Desktop/Store/Steps.antt =====
-- The transactions but the purging as steps, and schedules of them: the tasks of the backend run
-- them in any order. A transaction that raises leaves the tables as they were.
use real_time_surveillance_a.Base.{
  ℕ, String, ◌≡◌, Bool, Option, none, some, List, [], ◌∷◌, comparable_nat, comparable_text,
  comparable_pair, Result, ok, err,
}
use real_time_surveillance_a.Dict.{lookup}
use real_time_surveillance_a.Desktop.Queue.{Queue}
use real_time_surveillance_a.Desktop.Queue.Claims.{claim}
use real_time_surveillance_a.Desktop.Queue.Outcomes.{fail, retry_dead_letter, discard_dead_letter}
use real_time_surveillance_a.Desktop.Store.State.{Database}
use real_time_surveillance_a.Desktop.Store.Sessions.{
  save, replace_active, mark_revocation_pending, begin_revocation, enqueue_revocation, set_error,
  clear, complete_revocation,
}
use real_time_surveillance_a.Desktop.Store.Cameras.{
  CameraChanges, NewCamera, Texts, create, update_camera, delete, complete_camera,
}
use real_time_surveillance_a.Desktop.Store.Readings.{Kind, add_reading, complete}

pub data Step : Type 0 where
  saves : ℕ → String → String → Option ℕ → Step
  replaces : ℕ → String → ℕ → ℕ → Step
  marks : ℕ → ℕ → Step
  begins_revocation : ℕ → String → String → String → ℕ → ℕ → ℕ → Step
  enqueues_revocation : ℕ → String → String → ℕ → Step
  sets_error : ℕ → ℕ → String → Step
  clears : Option ℕ → Step
  creates : ℕ → String → String → NewCamera → ℕ → ℕ → Step
  updates : ℕ → String → String → CameraChanges → ℕ → Step
  deletes : ℕ → String → String → ℕ → Step
  adds : Kind → ℕ → String → String → String → String → String → ℕ → Step
  claims : String → String → ℕ → ℕ → ℕ → Option String → Step
  completes : ℕ → String → String → String → Step
  completes_camera : ℕ → String → String → String → String → String → Step
  completes_revocation : ℕ → String → String → String → ℕ → Step
  fails : String → String → String → ℕ → String → String → Bool → Step
  retries discards : ℕ → String → Step

abbrev pub or_kept {ℓ} :
    {E : Type 0} {X : Type ℓ} → (X → Database) → Database → Result E X → Database
or_kept f db (ok x) = f x
or_kept f db (err e) = db

abbrev pub with_queue : Queue → Database → Database
with_queue q db = record db { queue = q }

module _ (texts : Texts) where
  unfoldable pub perform : Step → Database → Database
  perform (saves now encrypted user valid) db =
      or_kept (λ r. r.1) db (save now encrypted user valid db)
  perform (replaces now encrypted valid expected) db =
      (replace_active now encrypted valid expected db).1
  perform (marks now expected) db = (mark_revocation_pending now expected db).1
  perform (begins_revocation now token fresh body expected attempts lease) db =
      (begin_revocation now token fresh body expected attempts lease db).1
  perform (enqueues_revocation now fresh body attempts) db =
      (enqueue_revocation now fresh body attempts db).1
  perform (sets_error now generation code) db = set_error now generation code db
  perform (clears expected) db = (clear expected db).1
  perform (creates now fresh id camera cameras attempts) db =
      or_kept (λ r. r.1) db (create texts now fresh id camera cameras attempts db)
  perform (updates now fresh id changes attempts) db =
      (update_camera texts now fresh id changes attempts db).1
  perform (deletes now fresh id attempts) db = (delete texts now fresh id attempts db).1
  perform (adds kind now fresh reading camera content body attempts) db =
      or_kept (λ d. d) db
        (add_reading kind texts.concat now fresh reading camera content body attempts db)
  perform (claims token owner now lease limit key) db =
      or_kept (λ r. with_queue r.1 db) db (claim token owner now lease limit key db.queue)
  perform (completes now id token owner) db = (complete now id token owner db).1
  perform (completes_camera now id token owner local server) db =
      (complete_camera texts now id token owner local server db).1
  perform (completes_revocation now id token owner generation) db =
      (complete_revocation now id token owner generation db).1
  perform (fails id token owner now code message permanently) db =
      with_queue (fail id token owner now code message permanently db.queue).1 db
  perform (retries now id) db = with_queue (retry_dead_letter now id db.queue).1 db
  perform (discards now id) db = with_queue (discard_dead_letter now id db.queue).1 db

  unfoldable pub run : List Step → Database → Database
  unfolding perform
  run [] db = db
  run (step ∷ steps) db = run steps (perform step db)

  -- The uuid that the step brings, if it brings one.
  abbrev pub fresh_id : Step → Option String
  fresh_id (begins_revocation now token fresh body expected attempts lease) = some fresh
  fresh_id (enqueues_revocation now fresh body attempts) = some fresh
  fresh_id (creates now fresh id camera cameras attempts) = some fresh
  fresh_id (updates now fresh id changes attempts) = some fresh
  fresh_id (deletes now fresh id attempts) = some fresh
  fresh_id (adds kind now fresh reading camera content body attempts) = some fresh
  fresh_id _ = none

  abbrev pub IsNew : Option String → Database → Type 0
  IsNew none db = Unit
  IsNew (some id) db = lookup id db.queue ≡ none

  -- No uuid comes twice.
  abbrev pub BringsNew : List Step → Database → Type 0
  BringsNew [] db = Unit
  BringsNew (step ∷ steps) db = IsNew (fresh_id step) db × BringsNew steps (perform step db)
