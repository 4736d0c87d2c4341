-- ===== src/Desktop/Store/Sessions.antt =====
-- The one row of `local_sessions`: a write names the generation that it expects.
use real_time_surveillance_a.Base.{
  ℕ, ◌+◌, String, Bool, true, false, ◌&&◌, ◌||◌, Option, none, some, if◌then◌else◌, ◌==◌,
  comparable_nat, comparable_text, comparable_pair, Result, ok, err,
}
use real_time_surveillance_a.Desktop.Rows.{update_where}
use real_time_surveillance_a.Desktop.Queue.{
  pending, dead_letter, cancelled, Payload, Queue, is_waiting, same_state, enqueue,
}
use real_time_surveillance_a.Desktop.Queue.Claims.{lease}
use real_time_surveillance_a.Desktop.Queue.Outcomes.{complete_row}
use real_time_surveillance_a.Desktop.Store.State.{
  active, revocation_pending, same_status, Session, Database,
}

pub data SaveError : Type 0 where
  user_missing : SaveError

-- The revocations that the new session makes void.
unfoldable pub cancel_revocations : ℕ → Queue → Queue
cancel_revocations now q =
    update_where
      (λ id i.
        i.logical_key == "session:revoke" && (is_waiting i.state || same_state i.state dead_letter))
      (λ i. record i { state = cancelled; completed_at = some now }) q

unfoldable pub next_generation : Option Session → ℕ
next_generation none = 1
next_generation (some s) = s.generation + 1

unfoldable pub save :
    ℕ → String → String → Option ℕ → Database → Result SaveError (Session × Database)
unfolding cancel_revocations next_generation
save now encrypted user_id license_valid_until db =
    if user_id == ""
    then err user_missing
    else (let session : Session = record {
      encrypted_payload = encrypted;
      user_id = user_id;
      license_valid_until = license_valid_until;
      updated_at = now;
      generation = next_generation db.session;
      status = active;
      last_error = none;
    } in
        ok (session, record db { session = some session; queue = cancel_revocations now db.queue }))

-- `WHERE singleton=1 AND generation=? AND status='active'`
abbrev pub is_current : ℕ → Session → Bool
is_current expected s = s.generation == expected && same_status s.status active

unfoldable pub update_current : ℕ → (Session → Session) → Database → Bool × Database
update_current expected f db = elim db.session [
  | none ↦ (false, db)
  | some s ↦
      if is_current expected s then (true, record db { session = some (f s) }) else (false, db)
]

unfoldable pub replace_active : ℕ → String → ℕ → ℕ → Database → Bool × Database
unfolding update_current
replace_active now encrypted license_valid_until expected db =
    update_current expected
      (λ s. record s {
        encrypted_payload = encrypted;
        license_valid_until = some license_valid_until;
        generation = s.generation + 1;
        updated_at = now;
        last_error = none;
      })
      db

abbrev pub revoke_session : ℕ → Session → Session
revoke_session now s = record s {
  status = revocation_pending;
  generation = s.generation + 1;
  updated_at = now;
  last_error = none;
}

unfoldable pub mark_revocation_pending : ℕ → ℕ → Database → Option ℕ × Database
unfolding update_current
mark_revocation_pending now expected db =
    let (done, db') = update_current expected (revoke_session now) db in
    (if done then some (expected + 1) else none, db')

abbrev pub revocation_payload : String → Payload
revocation_payload body = record { kind = some "session_revoke"; method = none; body = body }

-- `body` is the text of the payload, with the generation in it.
unfoldable pub begin_revocation :
    ℕ → String → String → String → ℕ → ℕ → ℕ → Database → Option (ℕ × String × String) × Database
unfolding update_current enqueue lease
begin_revocation now token fresh_id body expected max_attempts lease_seconds db =
    let (done, db') = update_current expected (revoke_session now) db in
    let (id, q) =
      enqueue now fresh_id "/api/v1/auth/logout" (revocation_payload body) "session:revoke"
        max_attempts none db'.queue in
    let q' =
      update_where (λ k i. k == id && same_state i.state pending)
        (lease token "auth-logout" now (now + lease_seconds)) q in
    if done then (some (expected + 1, id, token), record db' { queue = q' }) else (none, db')

unfoldable pub enqueue_revocation : ℕ → String → String → ℕ → Database → String × Database
unfolding enqueue
enqueue_revocation now fresh_id body max_attempts db =
    let (id, q) =
      enqueue now fresh_id "/api/v1/auth/logout" (revocation_payload body) "session:revoke"
        max_attempts none db.queue in
    (id, record db { queue = q })

-- The text has been cut to 100 characters.
unfoldable pub set_error : ℕ → ℕ → String → Database → Database
set_error now generation code db = elim db.session [
  | none ↦ db
  | some s ↦
      if s.generation == generation
      then record db { session = some (record s { last_error = some code; updated_at = now }) }
      else db
]

unfoldable pub clear : Option ℕ → Database → Bool × Database
clear expected db = elim db.session [
  | none ↦ (false, db)
  | some s ↦
      if elim expected [ none ↦ true | some generation ↦ s.generation == generation ]
      then (true, record db { session = none })
      else (false, db)
]

-- The deletion that ends a revocation.
unfoldable pub delete_revoked : ℕ → Option Session → Option Session
delete_revoked generation none = none
delete_revoked generation (some s) =
    if s.generation == generation && same_status s.status revocation_pending then none else some s

unfoldable pub complete_revocation : ℕ → String → String → String → ℕ → Database → Bool × Database
unfolding complete_row delete_revoked
complete_revocation now id token owner generation db =
    let (done, q) = complete_row id token owner now db.queue in
    let db' = record db { queue = q } in
    if done
    then (true, record db' { session = delete_revoked generation db.session })
    else (false, db')
