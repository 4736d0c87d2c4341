-- ===== src/Desktop/Store/Revocation.antt =====
-- The session through every schedule of transactions.
use real_time_surveillance_a.Base.{
  ℕ, String, ◌≡◌, refl, ap, ◌∙◌, Bool, true, false, Option, none, some, is_some, List, [], ◌∷◌,
  arith, ltb, if_elim, comparable_nat, comparable_text, comparable_pair, All,
}
use real_time_surveillance_a.Desktop.Queue.Outcomes.{complete_row}
use real_time_surveillance_a.Desktop.Store.State.{active, same_status, Session, Database}
use real_time_surveillance_a.Desktop.Store.Sessions.{
  save, next_generation, update_current, revoke_session, replace_active, mark_revocation_pending,
  begin_revocation, set_error, delete_revoked, complete_revocation,
}
use real_time_surveillance_a.Desktop.Store.Cameras.{Texts}
use real_time_surveillance_a.Desktop.Store.Steps.{Step, perform, run}
use real_time_surveillance_a.Desktop.Store.Untouched.{perform-session}

-- An active session.
abbrev pub is_logged_in : Option Session → Bool
is_logged_in session = elim session [ none ↦ false | some s ↦ same_status s.status active ]

-- A session of a generation past `g`.
abbrev pub is_past : ℕ → Option Session → Bool
is_past g session = elim session [ none ↦ false | some s ↦ ltb g s.generation ]

-- The transactions that end a session: a logout, and `clear`, which the services also call when the
-- licence has run out or the account is not active.
abbrev pub is_ending : Step → Bool
is_ending (Step.marks now expected) = true
is_ending (Step.begins_revocation now token fresh body expected attempts seconds) = true
is_ending (Step.clears expected) = true
is_ending _ = false

-- The steps that may delete the session.
abbrev pub is_deletion : Step → Bool
is_deletion (Step.clears expected) = true
is_deletion (Step.completes_revocation now id token owner generation) = true
is_deletion _ = false

-- The changes that start from one generation of the session: the replacement of the tokens after a
-- refresh, the mark of a logout without its request, and a logout with it.
pub data Change : Type 0 where
  refreshes : ℕ → String → ℕ → Change
  marks : ℕ → Change
  begins : ℕ → String → String → String → ℕ → ℕ → Change

-- The change from the generation `expected`: whether it had an effect, and the database after it.
unfoldable pub take_change : Change → ℕ → Database → Bool × Database
unfolding replace_active mark_revocation_pending begin_revocation
take_change (refreshes now encrypted valid) expected db =
    replace_active now encrypted valid expected db
take_change (marks now) expected db =
    let (generation, db') = mark_revocation_pending now expected db in (is_some generation, db')
take_change (begins now token fresh body attempts seconds) expected db =
    let (revocation, db') = begin_revocation now token fresh body expected attempts seconds db in
    (is_some revocation, db')

delete_revoked-active :
    (generation : ℕ) (session : Option Session)
    → is_logged_in session ≡ true
    → is_logged_in (delete_revoked generation session) ≡ true
unfolding delete_revoked
delete_revoked-active generation none h = h
delete_revoked-active generation (some s) h = ground arith

module _ (texts : Texts) where
  perform-is_logged_in :
      (step : Step) (db : Database)
      → is_ending step ≡ false
      → is_logged_in db.session ≡ true
      → is_logged_in (perform texts step db).session ≡ true
  unfolding perform save replace_active update_current set_error complete_revocation
  perform-is_logged_in (Step.saves now encrypted user valid) db l h = ground arith
  perform-is_logged_in (Step.replaces now encrypted valid expected) db l h = ground arith
  perform-is_logged_in (Step.sets_error now generation code) db l h = ground arith
  perform-is_logged_in (Step.completes_revocation now id token owner generation) db l h =
      if_elim {A = Bool × Database} (λ o. is_logged_in o.1.session ≡ true)
        (complete_row id token owner now db.queue).0 _ _
        (λ e. delete_revoked-active generation db.session h) λ e. h
  perform-is_logged_in (Step.marks now expected) db l h = cc
  perform-is_logged_in (Step.begins_revocation now token fresh body expected attempts seconds) db l
        h =
      cc
  perform-is_logged_in (Step.clears expected) db l h = cc
  perform-is_logged_in step db l h = ap is_logged_in (perform-session texts db step refl) ∙ h

  -- A session that is active stays active through every schedule of transactions without a logout
  -- (`mark_revocation_pending`, `begin_revocation`) and without a `clear`, which is also how the
  -- session ends when the licence has run out or the account is not active: the end of an earlier
  -- revocation, whichever generation it names, does not remove a later login.
  pub run-is_logged_in :
      (steps : List Step) (db : Database)
      → All (λ step. is_ending step ≡ false) steps
      → is_logged_in db.session ≡ true
      → is_logged_in (run texts steps db).session ≡ true
  unfolding run
  run-is_logged_in [] db l h = h
  run-is_logged_in (step ∷ steps) db l h =
      run-is_logged_in steps (perform texts step db) l.1 (perform-is_logged_in step db l.0 h)

  update_current-is_past :
      (g now expected : ℕ) (db : Database)
      → is_past g db.session ≡ true
      → is_past g (update_current expected (revoke_session now) db).1.session ≡ true
  unfolding update_current
  update_current-is_past g now expected db h = ground arith

  perform-is_past :
      (g : ℕ) (step : Step) (db : Database)
      → is_deletion step ≡ false
      → is_past g db.session ≡ true
      → is_past g (perform texts step db).session ≡ true
  unfolding perform save next_generation replace_active update_current mark_revocation_pending
      begin_revocation set_error
  perform-is_past g (Step.saves now encrypted user valid) db l h = ground arith
  perform-is_past g (Step.replaces now encrypted valid expected) db l h = ground arith
  perform-is_past g (Step.marks now expected) db l h = ground arith
  perform-is_past g (Step.begins_revocation now token fresh body expected attempts seconds) db l h =
      let moved = update_current-is_past g now expected db h in
      if_elim {A = Option (ℕ × String × String) × Database} (λ o. is_past g o.1.session ≡ true)
        (update_current expected (revoke_session now) db).0 _ _ (λ e. moved) λ e. moved
  perform-is_past g (Step.sets_error now generation code) db l h = ground arith
  perform-is_past g (Step.clears expected) db l h = cc
  perform-is_past g (Step.completes_revocation now id token owner generation) db l h = cc
  perform-is_past g step db l h = ap (is_past g) (perform-session texts db step refl) ∙ h

  run-is_past :
      (g : ℕ) (steps : List Step) (db : Database)
      → All (λ step. is_deletion step ≡ false) steps
      → is_past g db.session ≡ true
      → is_past g (run texts steps db).session ≡ true
  unfolding run
  run-is_past g [] db l h = h
  run-is_past g (step ∷ steps) db l h =
      run-is_past g steps (perform texts step db) l.1 (perform-is_past g step db l.0 h)

  take_change-is_past :
      (change : Change) (expected : ℕ) (db : Database)
      → (take_change change expected db).0 ≡ true
      → is_past expected (take_change change expected db).1.session ≡ true
  unfolding take_change replace_active update_current mark_revocation_pending begin_revocation
  take_change-is_past (Change.refreshes now encrypted valid) expected db h = ground arith
  take_change-is_past (Change.marks now) expected db h = ground arith
  take_change-is_past (Change.begins now token fresh body attempts seconds) expected db h =
      ground arith

  replace_active-past :
      (now valid expected : ℕ) (encrypted : String) (db : Database)
      → is_past expected db.session ≡ true
      → replace_active now encrypted valid expected db ≡ (false, db)
  unfolding replace_active
  replace_active-past now valid expected encrypted db h = ground arith

  mark_revocation_pending-past :
      (now expected : ℕ) (db : Database)
      → is_past expected db.session ≡ true
      → mark_revocation_pending now expected db ≡ (none, db)
  unfolding mark_revocation_pending
  mark_revocation_pending-past now expected db h = ground arith

  update_current-past :
      (expected : ℕ) (f : Session → Session) (db : Database)
      → is_past expected db.session ≡ true
      → update_current expected f db ≡ (false, db)
  unfolding update_current
  update_current-past expected f db h = ground arith

  begin_revocation-past :
      (now expected attempts seconds : ℕ) (token fresh body : String) (db : Database)
      → is_past expected db.session ≡ true
      → begin_revocation now token fresh body expected attempts seconds db ≡ (none, db)
  unfolding begin_revocation
  begin_revocation-past now expected attempts seconds token fresh body db h =
      rw (update_current-past expected (revoke_session now) db h) refl

  take_change-past :
      (change : Change) (expected : ℕ) (db : Database)
      → is_past expected db.session ≡ true
      → take_change change expected db ≡ (false, db)
  unfolding take_change
  take_change-past (Change.refreshes now encrypted valid) expected db h =
      replace_active-past now valid expected encrypted db h
  take_change-past (Change.marks now) expected db h =
      ap (λ o. (is_some o.0, o.1)) (mark_revocation_pending-past now expected db h)
  take_change-past (Change.begins now token fresh body attempts seconds) expected db h =
      ap (λ o. (is_some o.0, o.1))
        (begin_revocation-past now expected attempts seconds token fresh body db h)

  -- Of all the changes that start from one generation of the session, refreshes, marks and
  -- revocations alike, at most one has an effect: once any of them has succeeded, then after every
  -- schedule of transactions that does not delete the session, each further one from that
  -- generation, of the same kind or another, reports that it did nothing and changes nothing.
  pub take_change-run :
      (change later : Change) (expected : ℕ) (steps : List Step) (db : Database)
      → (take_change change expected db).0 ≡ true
      → All (λ step. is_deletion step ≡ false) steps
      → let after = run texts steps (take_change change expected db).1 in
        take_change later expected after ≡ (false, after)
  take_change-run change later expected steps db won kept =
      take_change-past later expected _
        (run-is_past expected steps _ kept (take_change-is_past change expected db won))
