-- ===== src/Web/Sessions/Revocation.antt =====
-- A session that was revoked stays revoked.
use real_time_surveillance_a.Base.{
  ℕ, String, ◌≡◌, refl, inl, inr, Bool, true, false, not, Option, none, some, List, arith,
  Bool-cases, Option-cases, ◌==◌, comparable_nat, comparable_text, comparable_pair, All, is_ok,
}
use text.Mathlib.TextEquality.{eq_iff}
use real_time_surveillance_a.Web.Sessions.{
  garbage, json, SessionState, RefreshState, Entry, Keys, unexpired, expire, is_text,
  activate_session,
}
use real_time_surveillance_a.Web.Sessions.Scripts.{
  rotation_expiries, rotate_states, rotate_stored, rotate_refresh, delete_if_sid, reconcile_states,
  reconcile_stored, reconcile,
}
use real_time_surveillance_a.Web.Sessions.Steps.{
  load_session, names_session, validate_session_state, Step, perform, run, run-keeps,
}

abbrev lacks_entry : String → Option (Entry SessionState) → Bool
lacks_entry sid none = true
lacks_entry sid (some e) = elim e.value [ garbage ↦ true | json s ↦ not (is_text s.sid sid) ]

-- The session key does not hold that session.
abbrev pub lacks : String → Keys → Bool
lacks sid keys = lacks_entry sid keys.session

-- The step is no login under that session id.
abbrev pub activates_other : String → Step → Bool
activates_other sid (Step.activates state refresh session_expires_at refresh_expires_at) =
    not (is_text state.sid sid)
activates_other sid _ = true

expire-lacks :
    (now : ℕ) (sid : String) (keys : Keys)
    → lacks sid keys ≡ true
    → lacks sid (expire now keys) ≡ true
unfolding expire unexpired
expire-lacks now sid keys h = ground arith

rotate_stored-lacks :
    (now : ℕ) (digest jti of sid : String) (p : RefreshState) (s : Option (Entry SessionState))
    (r : Option (Entry RefreshState)) (keys : Keys)
    → lacks_entry sid s ≡ true
    → lacks sid keys ≡ true
    → lacks sid (rotate_stored now digest jti of p s r keys).1 ≡ true
unfolding rotate_stored rotate_states rotation_expiries
rotate_stored-lacks now digest jti of sid p none r keys e h = h
rotate_stored-lacks now digest jti of sid p (some s) none keys e h = h
rotate_stored-lacks now digest jti of sid p (some s) (some r) keys e h = ground arith

reconcile_stored-lacks :
    (now : ℕ) (of license_id sid : String) (from until : ℕ) (s : Option (Entry SessionState))
    (r : Option (Entry RefreshState)) (keys : Keys)
    → lacks_entry sid s ≡ true
    → lacks sid keys ≡ true
    → lacks sid (reconcile_stored now of license_id from until s r keys).1 ≡ true
unfolding reconcile_stored reconcile_states
reconcile_stored-lacks now of license_id sid from until none r keys e h = refl
reconcile_stored-lacks now of license_id sid from until (some s) none keys e h = refl
reconcile_stored-lacks now of license_id sid from until (some s) (some r) keys e h = ground arith

perform-lacks :
    (sid : String) (step : Step) (keys : Keys)
    → activates_other sid step ≡ true
    → lacks sid keys ≡ true
    → lacks sid (perform step keys) ≡ true
unfolding perform rotate_refresh delete_if_sid reconcile activate_session
perform-lacks sid (Step.activates state refresh session refresh_end) keys o h = o
perform-lacks sid (Step.rotates now digest jti of p) keys o h =
    let live = expire now keys in
    let lacking = expire-lacks now sid keys h in
    rotate_stored-lacks now digest jti of sid p live.session live.refresh live lacking lacking
perform-lacks sid (Step.deletes now of) keys o h = ground (arith, expire-lacks now sid keys h)
perform-lacks sid (Step.reconciles now of license_id from until) keys o h =
    let live = expire now keys in
    let lacking = expire-lacks now sid keys h in
    reconcile_stored-lacks now of license_id sid from until live.session live.refresh live lacking
      lacking
perform-lacks sid Step.removes keys o h = refl

delete_if_sid-lacks :
    (now : ℕ) (sid : String) (keys : Keys)
    → is_ok (delete_if_sid now sid keys).0 ≡ true
    → lacks sid (delete_if_sid now sid keys).1 ≡ true
unfolding delete_if_sid
delete_if_sid-lacks now sid keys h = ground arith

load_session-lacks :
    (now : ℕ) (sid : String) (s : SessionState) (keys : Keys)
    → lacks sid keys ≡ true
    → load_session now keys ≡ some s
    → is_text s.sid sid ≡ false
unfolding load_session expire unexpired
load_session-lacks now sid s keys h e = ground arith

module _ (identifier token_digest : String → String) {Row : Type 0}
    (find_row : String → Option Row) where
  names_session-is_text :
      (token : String) (expected : Option String) (s : SessionState)
      → ((identifier token == "") ≡ false)
      → names_session identifier token_digest find_row token expected s ≡ true
      → is_text s.sid (identifier token) ≡ true
  unfolding names_session
  names_session-is_text token expected s n h = ground (arith, eq_iff "" (identifier token))

  validate_session_state-lacks :
      (now : ℕ) (token : String) (expected : Option String) (keys : Keys)
      → ((identifier token == "") ≡ false)
      → lacks (identifier token) keys ≡ true
      → validate_session_state identifier token_digest find_row now token expected keys ≡ none
  unfolding validate_session_state
  validate_session_state-lacks now token expected keys n h =
      elim (Option-cases (load_session now keys)) [
        | inl e ↦ ground arith
        | inr (s, e) ↦
            let other = load_session-lacks now (identifier token) s keys h e in
            elim (Bool-cases (names_session identifier token_digest find_row token expected s)) [
              | inl t ↦ ground (arith, names_session-is_text token expected s n t)
              | inr t ↦ ground arith
            ]
      ]

  -- Once the outbox has revoked a session without an error, its token is refused, whatever
  -- rotations, reconciliations, revocations and other logins of the user run meanwhile, unless a
  -- login brings the same session id.
  pub validate_session_state-run :
      (now later : ℕ) (token : String) (expected : Option String) (steps : List Step) (keys : Keys)
      → ((identifier token == "") ≡ false)
      → is_ok (delete_if_sid now (identifier token) keys).0 ≡ true
      → All (λ step. activates_other (identifier token) step ≡ true) steps
      → validate_session_state identifier token_digest find_row later token expected
          (run steps (delete_if_sid now (identifier token) keys).1)
        ≡ none
  validate_session_state-run now later token expected steps keys n done others =
      validate_session_state-lacks later token expected _ n (
        run-keeps (lacks (identifier token)) (activates_other (identifier token))
          (perform-lacks (identifier token)) steps _ others
          (delete_if_sid-lacks now (identifier token) keys done))
