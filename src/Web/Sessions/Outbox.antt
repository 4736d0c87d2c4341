-- ===== src/Web/Sessions/Outbox.antt =====
-- `process_session_outbox_once` and `enqueue_session_action`. The rows of `auth.session_outbox`
-- stand in the order of their ids. Which of the awaits on a row raises, and with which text, is an
-- argument; the database and Redis keep what was done before it.
pub mod Attempts
mod Tests
use real_time_surveillance_a.Base.{
  ℕ, zero, suc, ◌+◌, ◌-◌, ◌*◌, ◌/◌, ◌%◌, ◌≤◌, ◌<◌, min, max, String, ◌≡◌, refl, sym, ap, ◌∙◌, subst,
  ◌≢◌, ◌↔◌, ◌⊎◌, inl, inr, Bool, true, false, not, ◌&&◌, ◌||◌, Option, none, some, List, [], ◌∷◌,
  ◌++◌, map, arith, ltb, leb, if◌then◌else◌, Bool-cases, if_elim, Option-cases, is_some, Comparable,
  ◌==◌, ==_refl, comparable_nat, comparable_text, comparable_pair, length, length-append, last?,
  last?-snoc, keep_last, length-keep_last, keep_last-short, keep_last-snoc, keep_last-append, All,
  All-append, All-keep_last, All-map, keep_if, any_of, count_if, contains, Result, ok, err, ◌>>=◌,
  ◌>>◌, raise_if, is_ok, Result-cases, Ensures, Ensures-bind, ℤ, pos, negsuc, is_negative,
}
use real_time_surveillance_a.Dict.{Dict, lookup, insert}
use real_time_surveillance_a.Web.Sessions.{Keys, no_keys}
use real_time_surveillance_a.Web.Sessions.Scripts.{
  undecodable, ScriptError, delete_if_sid, reconcile,
}

pub data Operation : Type 0 where
  revocation reconciliation unknown : Operation

pub record OutboxRow : Type 0 where
  pub id : ℕ
  pub user_id : String
  pub operation : Operation
  pub sid : String
  pub processed_at : Option ℕ
  pub attempts : ℕ
  pub last_error : Option String

pub record LicenseRow : Type 0 where
  pub id : String
  pub user_id : String
  pub is_active : Bool
  pub valid_from : ℕ
  pub valid_until : ℕ

pub record SessionRow : Type 0 where
  pub user_id : String
  pub session_token : String
  pub revoked_at : Option ℕ
  pub expires_at : ℕ

pub record Platform : Type 0 where
  pub redis : Dict String Keys
  pub sessions : List SessionRow
  pub licenses : List LicenseRow
  pub outbox : List OutboxRow
  pub next_id : ℕ

unfoldable pub enqueue_session_action : String → Operation → String → Platform → ℕ × Platform
enqueue_session_action user_id operation sid p = (
  p.next_id,
  record p {
    outbox =
        p.outbox
        ++ record {
          id = p.next_id;
          user_id = user_id;
          operation = operation;
          sid = sid;
          processed_at = none;
          attempts = 0;
          last_error = none;
        }
          ∷ [];
    next_id = p.next_id + 1;
  },
)

-- The texts of what the query, the update, the call of Redis, the mark of the row and the report
-- of an error raise.
pub record Faults : Type 0 where
  pub fetching : Option String
  pub updating : Option String
  pub scripting : Option String
  pub marking : Option String
  pub reporting : Option String

-- `ORDER BY valid_until DESC LIMIT 1`
unfoldable pub valid_license : ℕ → String → List LicenseRow → Option LicenseRow
valid_license now user_id [] = none
valid_license now user_id (l ∷ rest) =
    let best = valid_license now user_id rest in
    if l.user_id == user_id && l.is_active && leb l.valid_from now && ltb now l.valid_until
    then elim best [
      | none ↦ some l
      | some b ↦ if ltb l.valid_until b.valid_until then some b else some l
    ]
    else best

unfoldable pub keys_of : String → Platform → Keys
keys_of user_id p = elim (lookup user_id p.redis) [ none ↦ no_keys | some keys ↦ keys ]

unfoldable pub with_keys : String → Keys → Platform → Platform
with_keys user_id keys p = record p { redis = insert user_id keys p.redis }

unfoldable pub update_live : (SessionRow → SessionRow) → String → Platform → Platform
update_live f user_id p = record p {
  sessions =
      map (λ s. if s.user_id == user_id && not (is_some s.revoked_at) then f s else s) p.sessions;
}

-- Runs `rest` unless the await before it raises.
unfoldable pub awaiting :
    Option String → Platform → Option String × Platform → Option String × Platform
awaiting none p rest = rest
awaiting (some error) p rest = (some error, p)

unfoldable pub revoke_row : String → ℕ → OutboxRow → Platform → Option String × Platform
unfolding keys_of with_keys
revoke_row undecodable_text now row p =
    if row.sid == ""
    then (none, with_keys row.user_id no_keys p)
    else (let (answer, keys) = delete_if_sid now row.sid (keys_of row.user_id p) in
        (
          elim answer [ ok done ↦ none | err e ↦ some undecodable_text ],
          with_keys row.user_id keys p,
        ))

unfoldable pub reconcile_row : ℕ → Faults → OutboxRow → Platform → Option String × Platform
unfolding valid_license keys_of with_keys update_live awaiting
reconcile_row now f row p = awaiting f.fetching p (elim (valid_license now row.user_id p.licenses) [
  | none ↦
      let revoked = update_live (λ s. record s { revoked_at = some now }) row.user_id p in
      awaiting f.updating p
        (awaiting f.scripting revoked (none, with_keys row.user_id no_keys revoked))
  | some l ↦
      let bounded = update_live (λ s. record s { expires_at = l.valid_until }) row.user_id p in
      let keys =
        (reconcile now row.sid l.id l.valid_from l.valid_until (keys_of row.user_id p)).1 in
      awaiting f.updating p
        (awaiting f.scripting bounded (none, with_keys row.user_id keys bounded))
])

unfoldable pub act : String → ℕ → Faults → OutboxRow → Platform → Option String × Platform
unfolding revoke_row reconcile_row awaiting
act undecodable_text now f row p = elim row.operation [
  | revocation ↦ awaiting f.scripting p (revoke_row undecodable_text now row p)
  | reconciliation ↦ reconcile_row now f row p
  | unknown ↦ (none, p)
]

unfoldable pub mark : (OutboxRow → OutboxRow) → ℕ → List OutboxRow → List OutboxRow
mark g id [] = []
mark g id (r ∷ rows) = (if r.id == id then g r else r) ∷ mark g id rows

abbrev pub marked : (OutboxRow → OutboxRow) → ℕ → Platform → Platform
marked g id p = record p { outbox = mark g id p.outbox }

abbrev pub settled : ℕ → OutboxRow → OutboxRow
settled now r = record r { processed_at = some now; attempts = r.attempts + 1; last_error = none }

-- The text is cut to 2000 characters before.
abbrev pub reported : String → OutboxRow → OutboxRow
reported error r = record r { attempts = r.attempts + 1; last_error = some error }

-- The `except` of one row: whether the function raises.
unfoldable pub report : Faults → ℕ → String → Platform → Option String × Platform
unfolding mark awaiting
report f id error p = awaiting f.reporting p (none, marked (reported error) id p)

-- What it raises, if it does, whether the row was processed, and the state.
-- The end of the `try` of one row, and its `except`.
unfoldable pub conclude_row :
    ℕ → Faults → OutboxRow → Option String → Platform → Option String × Bool × Platform
unfolding mark report
conclude_row now f row (some e) p = let (raised, p') = report f row.id e p in (raised, false, p')
conclude_row now f row none p = elim f.marking [
  | some e ↦ let (raised, p') = report f row.id e p in (raised, false, p')
  | none ↦ (none, true, marked (settled now) row.id p)
]

unfoldable pub process_row :
    String → ℕ → Faults → OutboxRow → Platform → Option String × Bool × Platform
unfolding act conclude_row
process_row undecodable_text now f row p =
    let (error, p') = act undecodable_text now f row p in conclude_row now f row error p'

unfoldable pub process_rows :
    String → ℕ → (ℕ → Faults) → List OutboxRow → Platform → Option String × ℕ × Platform
unfolding process_row
process_rows undecodable_text now faults [] p = (none, 0, p)
process_rows undecodable_text now faults (row ∷ rest) p =
    let (raised, done, p') = process_row undecodable_text now (faults row.id) row p in
    let (raised', more, p'') = process_rows undecodable_text now faults rest p' in
    elim raised [ some e ↦ (some e, 0, p') | none ↦ (raised', (if done then 1 else 0) + more, p'') ]

unfoldable pub first_rows : ℕ → List OutboxRow → List OutboxRow
first_rows zero rows = []
first_rows (suc n) [] = []
first_rows (suc n) (r ∷ rows) = r ∷ first_rows n rows

abbrev pub pending_rows : ℕ → List OutboxRow → List OutboxRow
pending_rows limit rows = first_rows limit (keep_if (λ r. not (is_some r.processed_at)) rows)

unfoldable pub process_session_outbox_once :
    String → ℕ → ℕ → (ℕ → Faults) → Platform → Option String × ℕ × Platform
unfolding first_rows process_rows
process_session_outbox_once undecodable_text now limit faults p =
    process_rows undecodable_text now faults (pending_rows limit p.outbox) p
