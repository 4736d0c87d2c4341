-- ===== src/Web/Sessions/Rotation.antt =====
-- A refresh token serves once.
use real_time_surveillance_a.Base.{
  ℕ, String, ◌≡◌, refl, Bool, true, false, not, Option, none, some, List, arith, comparable_nat,
  comparable_text, comparable_pair, All,
}
use real_time_surveillance_a.Web.Sessions.{
  garbage, json, SessionState, RefreshState, Entry, Keys, unexpired, expire, is_text,
  activate_session,
}
use real_time_surveillance_a.Web.Sessions.Scripts.{
  rotation_expiries, rotate_states, rotate_stored, rotate_refresh, delete_if_sid, reconcile_states,
  reconcile_stored, reconcile,
}
use real_time_surveillance_a.Web.Sessions.Steps.{Step, perform, run, run-keeps}

abbrev is_spent_entry : String → Option (Entry RefreshState) → Bool
is_spent_entry jti none = true
is_spent_entry jti (some e) = elim e.value [ garbage ↦ true | json r ↦ not (is_text r.jti jti) ]

-- The refresh key does not hold the token with that id.
abbrev pub is_spent : String → Keys → Bool
is_spent jti keys = is_spent_entry jti keys.refresh

-- The step does not bring a refresh token with that id.
abbrev pub brings_other : String → Step → Bool
brings_other jti (Step.activates state refresh session_expires_at refresh_expires_at) =
    not (is_text refresh.jti jti)
brings_other jti (Step.rotates now digest old sid replacement) = not (is_text replacement.jti jti)
brings_other jti _ = true

expire-is_spent :
    (now : ℕ) (jti : String) (keys : Keys)
    → is_spent jti keys ≡ true
    → is_spent jti (expire now keys) ≡ true
unfolding expire unexpired
expire-is_spent now jti keys h = ground arith

rotate_stored-is_spent :
    (now : ℕ) (digest old sid jti : String) (p : RefreshState) (s : Option (Entry SessionState))
    (r : Option (Entry RefreshState)) (keys : Keys)
    → not (is_text p.jti jti) ≡ true
    → is_spent jti keys ≡ true
    → is_spent jti (rotate_stored now digest old sid p s r keys).1 ≡ true
unfolding rotate_stored rotate_states rotation_expiries
rotate_stored-is_spent now digest old sid jti p none r keys o h = h
rotate_stored-is_spent now digest old sid jti p (some s) none keys o h = h
rotate_stored-is_spent now digest old sid jti p (some s) (some r) keys o h = ground arith

reconcile_stored-is_spent :
    (now : ℕ) (sid license_id jti : String) (from until : ℕ) (s : Option (Entry SessionState))
    (r : Option (Entry RefreshState)) (keys : Keys)
    → is_spent_entry jti r ≡ true
    → is_spent jti keys ≡ true
    → is_spent jti (reconcile_stored now sid license_id from until s r keys).1 ≡ true
unfolding reconcile_stored reconcile_states
reconcile_stored-is_spent now sid license_id jti from until none r keys e h = refl
reconcile_stored-is_spent now sid license_id jti from until (some s) none keys e h = refl
reconcile_stored-is_spent now sid license_id jti from until (some s) (some r) keys e h =
    ground arith

perform-is_spent :
    (jti : String) (step : Step) (keys : Keys)
    → brings_other jti step ≡ true
    → is_spent jti keys ≡ true
    → is_spent jti (perform step keys) ≡ true
unfolding perform rotate_refresh delete_if_sid reconcile activate_session
perform-is_spent jti (Step.activates state refresh session refresh_end) keys o h = o
perform-is_spent jti (Step.rotates now digest old sid p) keys o h =
    let live = expire now keys in
    rotate_stored-is_spent now digest old sid jti p live.session live.refresh live o
      (expire-is_spent now jti keys h)
perform-is_spent jti (Step.deletes now sid) keys o h =
    ground (arith, expire-is_spent now jti keys h)
perform-is_spent jti (Step.reconciles now sid license_id from until) keys o h =
    let live = expire now keys in
    let spent = expire-is_spent now jti keys h in
    reconcile_stored-is_spent now sid license_id jti from until live.session live.refresh live spent
      spent
perform-is_spent jti Step.removes keys o h = refl

rotate_stored-spends :
    (now : ℕ) (digest jti sid : String) (p : RefreshState) (s : Option (Entry SessionState))
    (r : Option (Entry RefreshState)) (keys : Keys)
    → not (is_text p.jti jti) ≡ true
    → (rotate_stored now digest jti sid p s r keys).0 ≡ true
    → is_spent jti (rotate_stored now digest jti sid p s r keys).1 ≡ true
unfolding rotate_stored rotate_states rotation_expiries
rotate_stored-spends now digest jti sid p none r keys o h = ground arith
rotate_stored-spends now digest jti sid p (some s) none keys o h = ground arith
rotate_stored-spends now digest jti sid p (some s) (some r) keys o h = ground arith

rotate_stored-refused :
    (now : ℕ) (digest jti sid : String) (p : RefreshState) (s : Option (Entry SessionState))
    (r : Option (Entry RefreshState)) (keys : Keys)
    → is_spent_entry jti r ≡ true
    → (rotate_stored now digest jti sid p s r keys).0 ≡ false
unfolding rotate_stored rotate_states rotation_expiries
rotate_stored-refused now digest jti sid p none r keys h = refl
rotate_stored-refused now digest jti sid p (some s) none keys h = refl
rotate_stored-refused now digest jti sid p (some s) (some r) keys h = ground arith

rotate_refresh-refused :
    (now : ℕ) (digest jti sid : String) (p : RefreshState) (keys : Keys)
    → is_spent jti keys ≡ true
    → (rotate_refresh now digest jti sid p keys).0 ≡ false
unfolding rotate_refresh
rotate_refresh-refused now digest jti sid p keys h =
    let live = expire now keys in
    rotate_stored-refused now digest jti sid p live.session live.refresh live
      (expire-is_spent now jti keys h)

rotate_refresh-spends :
    (now : ℕ) (digest jti sid : String) (p : RefreshState) (keys : Keys)
    → not (is_text p.jti jti) ≡ true
    → (rotate_refresh now digest jti sid p keys).0 ≡ true
    → is_spent jti (rotate_refresh now digest jti sid p keys).1 ≡ true
unfolding rotate_refresh
rotate_refresh-spends now digest jti sid p keys o h =
    let live = expire now keys in
    rotate_stored-spends now digest jti sid p live.session live.refresh live o h

-- A refresh token is used at most once: after a rotation that succeeded, each further rotation
-- with the same token is refused, whatever activations, rotations, revocations and
-- reconciliations run in between, as long as no new token has the same id.
pub rotate_refresh-run :
    (now later : ℕ) (digest digest' jti sid sid' : String) (p p' : RefreshState) (steps : List Step)
    (keys : Keys)
    → not (is_text p.jti jti) ≡ true
    → All (λ step. brings_other jti step ≡ true) steps
    → (rotate_refresh now digest jti sid p keys).0 ≡ true
    → (rotate_refresh later digest' jti sid' p'
        (run steps (rotate_refresh now digest jti sid p keys).1)).0
      ≡ false
rotate_refresh-run now later digest digest' jti sid sid' p p' steps keys o others won =
    rotate_refresh-refused later digest' jti sid' p' _ (
      run-keeps (is_spent jti) (brings_other jti) (perform-is_spent jti) steps _ others
        (rotate_refresh-spends now digest jti sid p keys o won))
