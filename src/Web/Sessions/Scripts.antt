-- ===== src/Web/Sessions/Scripts.antt =====
-- The Lua scripts of session_service.py, and `reconciliation_expiries`, which makes the checks of
-- one of them in Python.
use real_time_surveillance_a.Base.{
  ℕ, min, String, Bool, true, false, not, ◌&&◌, ◌||◌, Option, none, some, ltb, leb, if◌then◌else◌,
  ◌==◌, comparable_nat, comparable_text, comparable_pair, Result, ok, err,
}
use real_time_surveillance_a.Web.Sessions.{
  garbage, json, SessionState, RefreshState, Entry, Keys, no_keys, expire, is_text, entry,
}

-- The two instants of ROTATE_REFRESH_LUA, when the three fields are numbers.
unfoldable pub rotation_expiries : SessionState → RefreshState → Option (ℕ × ℕ)
rotation_expiries s p = elim p.refresh_expires_at [
  | none ↦ none
  | some refresh ↦ elim s.session_expires_at [
    | none ↦ none
    | some session ↦ elim s.license_expires_at [
      | none ↦ none
      | some license ↦ some (min session license, min refresh license)
    ]
  ]
]

abbrev pub are_named : String → String → String → SessionState → RefreshState → RefreshState → Bool
are_named digest jti sid s r p =
    is_text r.token_hash digest
    && is_text r.jti jti
    && is_text r.sid sid
    && is_text s.sid sid
    && is_text p.sid sid

unfoldable pub rotate_states :
    ℕ → String → String → String → RefreshState → SessionState → RefreshState → Keys → Bool × Keys
unfolding rotation_expiries
rotate_states now digest jti sid p s r keys =
    if not (are_named digest jti sid s r p) then (false, keys) else (elim (rotation_expiries s p) [
      | none ↦ (false, keys)
      | some (session_expiry, refresh_expiry) ↦
          if leb refresh_expiry now || leb session_expiry now then (false, keys) else (
            true,
            record {
              session =
                  entry (record s { refresh_expires_at = p.refresh_expires_at }) session_expiry;
              refresh = entry p refresh_expiry;
            },
          )
    ])

unfoldable pub rotate_stored :
    ℕ
    → String
    → String
    → String
    → RefreshState
    → Option (Entry SessionState)
    → Option (Entry RefreshState)
    → Keys
    → Bool × Keys
unfolding rotate_states
rotate_stored now digest jti sid p none refresh keys = (false, keys)
rotate_stored now digest jti sid p (some s) none keys = (false, keys)
rotate_stored now digest jti sid p (some s) (some r) keys = elim s.value [
  | garbage ↦ (false, no_keys)
  | json state ↦ elim r.value [
    | garbage ↦ (false, no_keys)
    | json refresh ↦ rotate_states now digest jti sid p state refresh keys
  ]
]

-- ROTATE_REFRESH_LUA, as `rotate_refresh` calls it; `digest` is the hash of the expected token.
unfoldable pub rotate_refresh : ℕ → String → String → String → RefreshState → Keys → Bool × Keys
unfolding rotate_stored expire
rotate_refresh now digest jti sid replacement keys =
    let live = expire now keys in
    rotate_stored now digest jti sid replacement live.session live.refresh live

pub data ScriptError : Type 0 where
  undecodable : ScriptError

-- DELETE_IF_SID_LUA, where a text that does not parse makes the script raise.
unfoldable pub delete_if_sid : ℕ → String → Keys → Result ScriptError Bool × Keys
unfolding expire
delete_if_sid now sid keys =
    let live = expire now keys in
    elim live.session [
      | none ↦ (ok true, record live { refresh = none })
      | some e ↦ elim e.value [
        | garbage ↦ (err undecodable, live)
        | json s ↦ if is_text s.sid sid then (ok true, no_keys) else (ok false, live)
      ]
    ]

abbrev same_sid : Option String → Option String → Bool
same_sid (some a) (some b) = a == b
same_sid _ _ = false

abbrev pub reconciled :
    String → ℕ → ℕ → SessionState → RefreshState → Entry RefreshState → ℕ → ℕ → Keys
reconciled license_id from until s r e session_expiry refresh_expiry = record {
  session =
      entry
        (record s {
          license_id = some license_id;
          license_valid_from = some from;
          license_expires_at = some until;
          refresh_expires_at = r.refresh_expires_at;
        })
        session_expiry;
  refresh = some (record e { expires_at = some refresh_expiry });
}

abbrev pub absolute_expiries : SessionState → RefreshState → Option (ℕ × ℕ)
absolute_expiries s r = elim s.session_expires_at [
  | none ↦ none
  | some session ↦ elim r.refresh_expires_at [
    | none ↦ none
    | some refresh ↦ some (session, refresh)
  ]
]

unfoldable pub reconcile_states :
    ℕ
    → String
    → String
    → ℕ
    → ℕ
    → SessionState
    → RefreshState
    → Entry RefreshState
    → Keys
    → Bool × Keys
reconcile_states now sid license_id from until s r e keys =
    if not (same_sid s.sid r.sid) || (not (sid == "") && not (is_text s.sid sid))
    then (false, no_keys)
    else (elim (absolute_expiries s r) [
      | none ↦ (false, no_keys)
      | some (session, refresh) ↦
          if ltb now from || leb until now
          then (false, keys)
          else if leb (min session until) now || leb (min refresh until) now
          then (false, no_keys)
          else (
            true,
            reconciled license_id from until s r e (min session until) (min refresh until),
          )
    ])

unfoldable pub reconcile_stored :
    ℕ
    → String
    → String
    → ℕ
    → ℕ
    → Option (Entry SessionState)
    → Option (Entry RefreshState)
    → Keys
    → Bool × Keys
unfolding reconcile_states
reconcile_stored now sid license_id from until none refresh keys = (false, no_keys)
reconcile_stored now sid license_id from until (some s) none keys = (false, no_keys)
reconcile_stored now sid license_id from until (some s) (some e) keys = elim s.value [
  | garbage ↦ (false, no_keys)
  | json state ↦ elim e.value [
    | garbage ↦ (false, no_keys)
    | json refresh ↦ reconcile_states now sid license_id from until state refresh e keys
  ]
]

-- RECONCILE_LUA, for the licence with that id and those bounds.
unfoldable pub reconcile : ℕ → String → String → ℕ → ℕ → Keys → Bool × Keys
unfolding reconcile_stored expire
reconcile now sid license_id from until keys =
    let live = expire now keys in
    reconcile_stored now sid license_id from until live.session live.refresh live

pub data ReconciliationError : Type 0 where
  license_inactive pair_mismatch expiry_missing pair_expired : ReconciliationError

-- A value of the JSON as Python reads it: absent, a whole number, or any other value, with its text.
pub data Field : Type 0 where
  missing : Field
  number : ℕ → Field
  other : String → Field

-- `int(state[…])`: Python's `int` of another value, such as a text, a float or a bool, is a
-- parameter; it gives nothing where Python raises.
abbrev pub int_field : (String → Option ℕ) → Field → Option ℕ
int_field int missing = none
int_field int (number n) = some n
int_field int (other text) = int text

-- What a script reads, which asks for a number.
abbrev pub number_of : Field → Option ℕ
number_of (number n) = some n
number_of _ = none

abbrev pub both : Option ℕ → Option ℕ → Option (ℕ × ℕ)
both none b = none
both (some a) none = none
both (some a) (some b) = some (a, b)

-- The same checks in Python, of the two session ids and the two expiries that it reads.
unfoldable pub reconciliation_expiries :
    (String → Option ℕ)
    → Option String
    → Option String
    → Field
    → Field
    → ℕ
    → ℕ
    → ℕ
    → Result ReconciliationError (ℕ × ℕ)
reconciliation_expiries int sid refresh_sid session_expires_at refresh_expires_at from until now =
    if ltb now from || leb until now
    then err license_inactive
    else if is_text sid "" || not (same_sid sid refresh_sid)
    then err pair_mismatch
    else (elim (both (int_field int session_expires_at) (int_field int refresh_expires_at)) [
      | none ↦ err expiry_missing
      | some (session, refresh) ↦
          if leb (min session until) now || leb (min refresh until) now
          then err pair_expired
          else ok (min session until, min refresh until)
    ])
