-- ===== src/Web/Sessions/Tests.antt =====
-- A user who is logged in until second 1000 and refreshes the session.
use real_time_surveillance_a.Base.{
  ℕ, String, ◌≡◌, refl, false, Option, none, some, List, [], ◌∷◌, arith, if◌then◌else◌, ◌==◌,
  comparable_nat, comparable_text, comparable_pair, ok,
}
use Prim.Native.String.{◌++◌ as ◌+++◌}
use real_time_surveillance_a.Web.Sessions.{
  SessionState, RefreshState, Keys, unexpired, expire, session_state, refresh_state,
  activate_session,
}
use real_time_surveillance_a.Web.Sessions.Scripts.{
  Field, rotation_expiries, rotate_states, rotate_stored, rotate_refresh, delete_if_sid,
  reconcile_states, reconcile_stored, reconcile, reconciliation_expiries,
}
use real_time_surveillance_a.Web.Sessions.Steps.{
  load_session, names_session, is_licensed, validate_session_state, Step, run,
}
use real_time_surveillance_a.Web.Sessions.Rotation.{rotate_refresh-run}
use real_time_surveillance_a.Web.Sessions.Revocation.{validate_session_state-run}
use real_time_surveillance_a.Web.Sessions.Expiry.{load_session-run}
use real_time_surveillance_a.Web.Sessions.Reconciliation.{
  granted, allowed, pair, reconcile-eq-reconciliation_expiries,
}

abbrev marked : String → String → String
marked mark s = mark +++ s

abbrev login : SessionState
login = record {
  sid = some "id:tok";
  session_id = some "id:tok";
  user_id = some "u1";
  token_hash = some "hash:tok";
  license_id = some "lic";
  license_valid_from = some 10;
  license_expires_at = some 5000;
  session_expires_at = some 1000;
  refresh_expires_at = some 2000;
}

abbrev first_refresh : RefreshState
first_refresh = record {
  token_hash = some "hash:r1";
  jti = some "j1";
  sid = some "id:tok";
  refresh_expires_at = some 2000;
}

abbrev second_refresh : RefreshState
second_refresh = record first_refresh { token_hash = some "hash:r2"; jti = some "j2" }

abbrev logged_in : Keys
logged_in = pair login first_refresh (some 1000) (some 2000)

activates_login :
    activate_session
      (session_state (marked "id:") (marked "hash:") "tok" "u1" "lic" 10 5000 1000 2000)
      (refresh_state (marked "id:") (marked "hash:") "r1" "j1" "id:tok" 2000)
      1000
      2000
    ≡ logged_in
unfolding activate_session session_state refresh_state
activates_login = refl

abbrev later : List Step
later =
    Step.reconciles 200 "" "lic2" 10 900
    ∷ Step.deletes 210 "id:old"
    ∷ Step.rotates 220 "hash:r2" "j2" "id:tok" (record first_refresh { jti = some "j3" })
    ∷ []

rotate_refresh-run_example :
    (rotate_refresh 300 "hash:r1" "j1" "id:tok" second_refresh
      (run later (rotate_refresh 150 "hash:r1" "j1" "id:tok" second_refresh logged_in).1)).0
    ≡ false
rotate_refresh-run_example =
    rotate_refresh-run 150 300 "hash:r1" "hash:r1" "j1" "id:tok" "id:tok" second_refresh
      second_refresh later logged_in refl (refl, (refl, (refl, tt)))
      (unfold rotate_refresh expire unexpired rotate_stored rotate_states rotation_expiries in refl)

validate_session_state-run_example :
    validate_session_state
      (marked "id:")
      (marked "hash:")
      (λ license. some license)
      300
      "tok"
      none
      (run later (delete_if_sid 180 "id:tok" logged_in).1)
    ≡ none
validate_session_state-run_example =
    validate_session_state-run (marked "id:") (marked "hash:") (λ license. some license) 180 300
      "tok" none later logged_in refl (unfold delete_if_sid expire unexpired in refl)
      (refl, (refl, (refl, tt)))

load_session-run_example : load_session 1000 (run later logged_in) ≡ none
load_session-run_example =
    load_session-run 1000 1000 later logged_in (refl, (refl, (refl, tt))) refl (omega arith)

abbrev decimal_only : String → Option ℕ
decimal_only text = if text == "1000" then some 1000 else none

reconcile-eq-reconciliation_expiries_example :
    granted (reconcile 200 "" "lic2" 10 900 logged_in)
    ≡ allowed (
        reconciliation_expiries decimal_only
          (some "id:tok")
          first_refresh.sid
          (Field.number 1000)
          (Field.number 2000)
          10
          900
          200)
reconcile-eq-reconciliation_expiries_example =
    reconcile-eq-reconciliation_expiries decimal_only 200 "" "lic2" 10 900 login first_refresh
      (Field.number 1000) (Field.number 2000) (some 1000) (some 2000) refl refl refl refl refl refl
      refl refl

-- A text with digits passes in Python, and makes the script delete both keys.
reads_text_apart :
    (reconciliation_expiries decimal_only
        (some "id:tok")
        (some "id:tok")
        (Field.other "1000")
        (Field.number 2000)
        10
        900
        200
      ≡ ok (900, 900))
    × (reconcile 200 "" "lic2" 10 900
          (pair (record login { session_expires_at = none }) first_refresh none none)
        ≡ (false, record { session = none; refresh = none }))
unfolding reconciliation_expiries reconcile expire unexpired reconcile_stored reconcile_states
reads_text_apart = (refl, refl)

-- Before the revocation the token is accepted.
validates_login :
    validate_session_state
      (marked "id:")
      (marked "hash:")
      (λ license. some license)
      150
      "tok"
      none
      logged_in
    ≡ some (login, "lic")
unfolding validate_session_state load_session expire unexpired names_session is_licensed
validates_login = refl

reconciles_login : granted (reconcile 200 "" "lic2" 10 900 logged_in) ≡ some (900, 900)
unfolding reconcile expire unexpired reconcile_stored reconcile_states
reconciles_login = refl
