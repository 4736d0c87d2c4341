-- ===== src/Web/Sessions/Reconciliation.antt =====
-- The script and the Python function agree, and no operation prolongs a session.
use real_time_surveillance_a.Base.{
  ℕ, String, ◌≡◌, Bool, true, false, ◌||◌, Option, none, some, arith, ◌==◌, comparable_nat,
  comparable_text, comparable_pair, Result, ok, err,
}
use real_time_surveillance_a.Web.Sessions.{
  json, SessionState, RefreshState, Keys, unexpired, expire, is_over, is_text,
}
use real_time_surveillance_a.Web.Sessions.Scripts.{
  Field, number_of, reconcile_states, reconcile_stored, reconcile, reconciliation_expiries,
}

-- The seconds at which a reconciliation that succeeded lets the two keys expire.
abbrev pub granted : Bool × Keys → Option (ℕ × ℕ)
granted (false, keys) = none
granted (true, keys) = elim keys.session [
  | none ↦ none
  | some s ↦ elim keys.refresh [
    | none ↦ none
    | some r ↦ elim s.expires_at [
      | none ↦ none
      | some a ↦ elim r.expires_at [ none ↦ none | some b ↦ some (a, b) ]
    ]
  ]
]

abbrev pub allowed : {E : Type 0} → Result E (ℕ × ℕ) → Option (ℕ × ℕ)
allowed (ok pair) = some pair
allowed (err e) = none

abbrev pub pair : SessionState → RefreshState → Option ℕ → Option ℕ → Keys
pair s r session_end refresh_end = record {
  session = some (record { value = json s; expires_at = session_end });
  refresh = some (record { value = json r; expires_at = refresh_end });
}

-- A value that Python and Lua read alike.
abbrev pub is_plain : Field → Bool
is_plain (Field.other text) = false
is_plain _ = true

-- On a live pair whose session id is not empty, and is the one asked for if one is, and whose two
-- absolute expiries are whole numbers, as a login and a refresh write them, or missing,
-- RECONCILE_LUA grants exactly the two expiries that `reconciliation_expiries` computes, and
-- refuses exactly when that raises, whatever `int` does on other values. Session ids that are not
-- texts count as missing.
pub reconcile-eq-reconciliation_expiries :
    (int : String → Option ℕ) (now : ℕ) (sid license_id : String) (from until : ℕ)
    (s : SessionState) (r : RefreshState) (session_expires_at refresh_expires_at : Field)
    (session_end refresh_end : Option ℕ)
    → is_text s.sid "" ≡ false
    → ((sid == "") || is_text s.sid sid) ≡ true
    → s.session_expires_at ≡ number_of session_expires_at
    → r.refresh_expires_at ≡ number_of refresh_expires_at
    → is_plain session_expires_at ≡ true
    → is_plain refresh_expires_at ≡ true
    → is_over session_end now ≡ false
    → is_over refresh_end now ≡ false
    → granted (reconcile now sid license_id from until (pair s r session_end refresh_end))
      ≡ allowed (
          reconciliation_expiries int s.sid r.sid session_expires_at refresh_expires_at from until
            now)
unfolding reconcile expire unexpired reconcile_stored reconcile_states reconciliation_expiries
reconcile-eq-reconciliation_expiries int now sid license_id from until s r (Field.number a)
      (Field.number b) session_end refresh_end n named first second plain plain' live live' =
    ground arith
reconcile-eq-reconciliation_expiries int now sid license_id from until s r Field.missing field
      session_end refresh_end n named first second plain plain' live live' =
    ground arith
reconcile-eq-reconciliation_expiries int now sid license_id from until s r (Field.number a)
      Field.missing session_end refresh_end n named first second plain plain' live live' =
    ground arith
reconcile-eq-reconciliation_expiries int now sid license_id from until s r (Field.other text) field
      session_end refresh_end n named first second plain plain' live live' =
    ground arith
reconcile-eq-reconciliation_expiries int now sid license_id from until s r (Field.number a)
      (Field.other text) session_end refresh_end n named first second plain plain' live live' =
    ground arith
