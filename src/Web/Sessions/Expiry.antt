-- ===== src/Web/Sessions/Expiry.antt =====
-- No operation but a login prolongs a session.
use real_time_surveillance_a.Base.{
  ℕ, ◌≤◌, String, ◌≡◌, refl, Bool, true, false, ◌&&◌, Option, none, some, List, arith, leb,
  comparable_nat, comparable_text, comparable_pair, All,
}
use real_time_surveillance_a.Web.Sessions.{
  garbage, json, SessionState, RefreshState, Entry, Keys, unexpired, expire, activate_session,
}
use real_time_surveillance_a.Web.Sessions.Scripts.{
  rotation_expiries, rotate_states, rotate_stored, rotate_refresh, delete_if_sid, reconcile_states,
  reconcile_stored, reconcile,
}
use real_time_surveillance_a.Web.Sessions.Steps.{load_session, Step, perform, run, run-keeps}

abbrev pub is_at_most : ℕ → Option ℕ → Bool
is_at_most bound none = false
is_at_most bound (some t) = leb t bound

abbrev is_capped_entry : ℕ → Option (Entry SessionState) → Bool
is_capped_entry bound none = true
is_capped_entry bound (some e) =
    is_at_most bound e.expires_at
    && elim e.value [ garbage ↦ true | json s ↦ is_at_most bound s.session_expires_at ]

-- The session, if there is one, ends by that second, and so does its key.
abbrev pub is_capped : ℕ → Keys → Bool
is_capped bound keys = is_capped_entry bound keys.session

-- The step is no login for longer.
abbrev pub is_within : ℕ → Step → Bool
is_within bound (Step.activates state refresh session_expires_at refresh_expires_at) =
    leb session_expires_at bound && is_at_most bound state.session_expires_at
is_within bound _ = true

expire-is_capped :
    (now bound : ℕ) (keys : Keys)
    → is_capped bound keys ≡ true
    → is_capped bound (expire now keys) ≡ true
unfolding expire unexpired
expire-is_capped now bound keys h = ground arith

rotate_stored-is_capped :
    (now bound : ℕ) (digest jti of : String) (p : RefreshState) (s : Option (Entry SessionState))
    (r : Option (Entry RefreshState)) (keys : Keys)
    → is_capped_entry bound s ≡ true
    → is_capped bound keys ≡ true
    → is_capped bound (rotate_stored now digest jti of p s r keys).1 ≡ true
unfolding rotate_stored rotate_states rotation_expiries
rotate_stored-is_capped now bound digest jti of p none r keys e h = h
rotate_stored-is_capped now bound digest jti of p (some s) none keys e h = h
rotate_stored-is_capped now bound digest jti of p (some s) (some r) keys e h = ground arith

reconcile_stored-is_capped :
    (now bound : ℕ) (of license_id : String) (from until : ℕ) (s : Option (Entry SessionState))
    (r : Option (Entry RefreshState)) (keys : Keys)
    → is_capped_entry bound s ≡ true
    → is_capped bound keys ≡ true
    → is_capped bound (reconcile_stored now of license_id from until s r keys).1 ≡ true
unfolding reconcile_stored reconcile_states
reconcile_stored-is_capped now bound of license_id from until none r keys e h = refl
reconcile_stored-is_capped now bound of license_id from until (some s) none keys e h = refl
reconcile_stored-is_capped now bound of license_id from until (some s) (some r) keys e h =
    ground arith

perform-is_capped :
    (bound : ℕ) (step : Step) (keys : Keys)
    → is_within bound step ≡ true
    → is_capped bound keys ≡ true
    → is_capped bound (perform step keys) ≡ true
unfolding perform rotate_refresh delete_if_sid reconcile activate_session
perform-is_capped bound (Step.activates state refresh session refresh_end) keys o h = ground arith
perform-is_capped bound (Step.rotates now digest jti of p) keys o h =
    let live = expire now keys in
    let capped = expire-is_capped now bound keys h in
    rotate_stored-is_capped now bound digest jti of p live.session live.refresh live capped capped
perform-is_capped bound (Step.deletes now of) keys o h =
    ground (arith, expire-is_capped now bound keys h)
perform-is_capped bound (Step.reconciles now of license_id from until) keys o h =
    let live = expire now keys in
    let capped = expire-is_capped now bound keys h in
    reconcile_stored-is_capped now bound of license_id from until live.session live.refresh live
      capped capped
perform-is_capped bound Step.removes keys o h = refl

load_session-over :
    (now bound : ℕ) (keys : Keys)
    → is_capped bound keys ≡ true
    → bound ≤ now
    → load_session now keys ≡ none
unfolding load_session expire unexpired
load_session-over now bound keys h o = ground arith

-- Refreshing cannot prolong a session: once the last second that a login has granted is over, no
-- session is stored, however often the refresh token was rotated and whatever licences came.
pub load_session-run :
    (now bound : ℕ) (steps : List Step) (keys : Keys)
    → All (λ step. is_within bound step ≡ true) steps
    → is_capped bound keys ≡ true
    → bound ≤ now
    → load_session now (run steps keys) ≡ none
load_session-run now bound steps keys within h o =
    load_session-over now bound (run steps keys)
      (run-keeps (is_capped bound) (is_within bound) (perform-is_capped bound) steps keys within h)
      o
