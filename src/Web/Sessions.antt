-- ===== src/Web/Sessions.antt =====
-- The two Redis keys of one user, `session:…` and `refresh:…`, and the operations of
-- apps/webapp-backend/app/services/session_service.py on them. A Lua script runs alone, so each is
-- a function, with the second at which it runs. A field of the JSON that is absent, or not of the
-- type that the code asks for, is `none`; a text that does not parse is `garbage`. What Python's
-- `int` makes of a value that is not a whole number is modelled in `reconciliation_expiries`.
pub mod Scripts
pub mod Steps
pub mod Rotation
pub mod Revocation
pub mod Reconciliation
pub mod Expiry
pub mod Outbox
mod Tests
use real_time_surveillance_a.Base.{
  ℕ, zero, suc, ◌+◌, ◌-◌, ◌*◌, ◌/◌, ◌%◌, ◌≤◌, ◌<◌, min, max, String, ◌≡◌, refl, sym, ap, ◌∙◌, subst,
  ◌≢◌, ◌↔◌, ◌⊎◌, inl, inr, Bool, true, false, not, ◌&&◌, ◌||◌, Option, none, some, List, [], ◌∷◌,
  ◌++◌, map, arith, ltb, leb, if◌then◌else◌, Bool-cases, if_elim, Option-cases, is_some, Comparable,
  ◌==◌, ==_refl, comparable_nat, comparable_text, comparable_pair, length, length-append, last?,
  last?-snoc, keep_last, length-keep_last, keep_last-short, keep_last-snoc, keep_last-append, All,
  All-append, All-keep_last, All-map, keep_if, any_of, count_if, contains, Result, ok, err, ◌>>=◌,
  ◌>>◌, raise_if, is_ok, Result-cases, Ensures, Ensures-bind, ℤ, pos, negsuc, is_negative,
}

pub data Stored (A : Type 0) : Type 0 where
  garbage : Stored A
  json : A → Stored A

pub record SessionState : Type 0 where
  pub sid : Option String
  pub session_id : Option String
  pub user_id : Option String
  pub token_hash : Option String
  pub license_id : Option String
  pub license_valid_from : Option ℕ
  pub license_expires_at : Option ℕ
  pub session_expires_at : Option ℕ
  pub refresh_expires_at : Option ℕ

pub record RefreshState : Type 0 where
  pub token_hash : Option String
  pub jti : Option String
  pub sid : Option String
  pub refresh_expires_at : Option ℕ

-- A value and the second at which Redis drops it.
pub record Entry (A : Type 0) : Type 0 where
  pub value : Stored A
  pub expires_at : Option ℕ

pub record Keys : Type 0 where
  pub session : Option (Entry SessionState)
  pub refresh : Option (Entry RefreshState)

abbrev pub no_keys : Keys
no_keys = record { session = none; refresh = none }

abbrev pub is_over : Option ℕ → ℕ → Bool
is_over time now = elim time [ none ↦ false | some t ↦ leb t now ]

unfoldable pub unexpired : {A : Type 0} → ℕ → Option (Entry A) → Option (Entry A)
unexpired now none = none
unexpired now (some e) = if is_over e.expires_at now then none else some e

-- Redis drops what has expired.
unfoldable pub expire : ℕ → Keys → Keys
unfolding unexpired
expire now keys = record {
  session = unexpired now keys.session;
  refresh = unexpired now keys.refresh;
}

abbrev pub is_text : Option String → String → Bool
is_text none t = false
is_text (some s) t = s == t

abbrev pub entry : {A : Type 0} → A → ℕ → Option (Entry A)
entry a expires = some (record { value = json a; expires_at = some expires })

module _ (identifier token_digest : String → String) where
  unfoldable pub session_state : String → String → String → ℕ → ℕ → ℕ → ℕ → SessionState
  session_state token user_id license_id valid_from valid_until session_expires_at
        refresh_expires_at =
      record {
        sid = some (identifier token);
        session_id = some (identifier token);
        user_id = some user_id;
        token_hash = some (token_digest token);
        license_id = some license_id;
        license_valid_from = some valid_from;
        license_expires_at = some valid_until;
        session_expires_at = some session_expires_at;
        refresh_expires_at = some refresh_expires_at;
      }

  unfoldable pub refresh_state : String → String → String → ℕ → RefreshState
  refresh_state token jti sid refresh_expires_at = record {
    token_hash = some (token_digest token);
    jti = some jti;
    sid = some sid;
    refresh_expires_at = some refresh_expires_at;
  }

unfoldable pub activate_session : SessionState → RefreshState → ℕ → ℕ → Keys
activate_session state refresh session_expires_at refresh_expires_at = record {
  session = entry state session_expires_at;
  refresh = entry refresh refresh_expires_at;
}
