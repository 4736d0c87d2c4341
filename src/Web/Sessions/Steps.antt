-- ===== src/Web/Sessions/Steps.antt =====
-- `validate_session_state`, and schedules of the operations: the requests of one user and the
-- worker of the outbox run them in any order.
use real_time_surveillance_a.Base.{
  ℕ, String, ◌≡◌, Bool, true, false, not, ◌&&◌, Option, none, some, List, [], ◌∷◌, ltb, leb,
  if◌then◌else◌, ◌==◌, comparable_nat, comparable_text, comparable_pair, All,
}
use real_time_surveillance_a.Web.Sessions.{
  garbage, json, SessionState, RefreshState, Keys, no_keys, expire, activate_session,
}
use real_time_surveillance_a.Web.Sessions.Scripts.{rotate_refresh, delete_if_sid, reconcile}

-- `load_json` of the session.
unfoldable pub load_session : ℕ → Keys → Option SessionState
unfolding expire
load_session now keys = elim (expire now keys).session [
  | none ↦ none
  | some e ↦ elim e.value [ garbage ↦ none | json s ↦ some s ]
]

-- `str(state.get(…, ""))`
abbrev pub or_empty : Option String → String
or_empty none = ""
or_empty (some s) = s

-- `find_row` is the query for the user's row and permissions, by the licence.
module _ (identifier token_digest : String → String) {Row : Type 0}
    (find_row : String → Option Row) where
  unfoldable pub names_session : String → Option String → SessionState → Bool
  names_session token expected_sid s =
      or_empty s.token_hash == token_digest token
      && or_empty s.sid == identifier token
      && elim expected_sid [ none ↦ true | some expected ↦ expected == identifier token ]

  unfoldable pub is_licensed : ℕ → SessionState → Bool
  is_licensed now s =
      elim s.license_valid_from [ none ↦ false | some from ↦ leb from now ]
      && elim s.license_expires_at [ none ↦ false | some until ↦ ltb now until ]

  unfoldable pub validate_session_state :
      ℕ → String → Option String → Keys → Option (SessionState × Row)
  unfolding load_session names_session is_licensed
  validate_session_state now token expected_sid keys = elim (load_session now keys) [
    | none ↦ none
    | some s ↦ if not (names_session token expected_sid s) then none else (elim s.license_id [
      | none ↦ none
      | some license_id ↦
          if not (is_licensed now s)
          then none
          else (elim (find_row license_id) [ none ↦ none | some row ↦ some (s, row) ])
    ])
  ]

pub data Step : Type 0 where
  activates : SessionState → RefreshState → ℕ → ℕ → Step
  rotates : ℕ → String → String → String → RefreshState → Step
  deletes : ℕ → String → Step
  reconciles : ℕ → String → String → ℕ → ℕ → Step
  removes : Step

unfoldable pub perform : Step → Keys → Keys
perform (activates state refresh session_expires_at refresh_expires_at) keys =
    activate_session state refresh session_expires_at refresh_expires_at
perform (rotates now digest jti sid replacement) keys =
    (rotate_refresh now digest jti sid replacement keys).1
perform (deletes now sid) keys = (delete_if_sid now sid keys).1
perform (reconciles now sid license_id from until) keys =
    (reconcile now sid license_id from until keys).1
perform removes keys = no_keys

unfoldable pub run : List Step → Keys → Keys
unfolding perform
run [] keys = keys
run (step ∷ steps) keys = run steps (perform step keys)

-- What each allowed step keeps, every schedule of allowed steps keeps.
pub run-keeps :
    (p : Keys → Bool) (allowed : Step → Bool)
    → ((step : Step) (keys : Keys)
        → allowed step ≡ true
        → p keys ≡ true
        → p (perform step keys) ≡ true)
    → (steps : List Step) (keys : Keys) → All (λ step. allowed step ≡ true) steps
    → p keys ≡ true
    → p (run steps keys) ≡ true
unfolding run
run-keeps p allowed kept [] keys a h = h
run-keeps p allowed kept (step ∷ steps) keys a h =
    run-keeps p allowed kept steps (perform step keys) a.1 (kept step keys a.0 h)
