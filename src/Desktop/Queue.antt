-- ===== src/Desktop/Queue.antt =====
-- The table `sync_queue` of apps/desktop-backend/app/repositories.py, `_enqueue` and the
-- operations of `SyncQueueRepository` on it. Instants are numbers, and a fresh uuid is an
-- argument. Of a payload the model shows the fields that the code reads back, and the rest as its
-- JSON text. Each function is one transaction.
use Prim.Native.Nat.{Ordering, ◌^◌}
use Prim.Native.String.{compare}
use real_time_surveillance_a.Base.{
  ℕ, zero, suc, ◌+◌, ◌-◌, ◌*◌, ◌/◌, ◌%◌, ◌≤◌, ◌<◌, min, max, String, ◌≡◌, refl, sym, ap, ◌∙◌, subst,
  ◌≢◌, ◌↔◌, ◌⊎◌, inl, inr, Bool, true, false, not, ◌&&◌, ◌||◌, Option, none, some, List, [], ◌∷◌,
  ◌++◌, map, arith, ltb, leb, if◌then◌else◌, Bool-cases, if_elim, Option-cases, is_some, Comparable,
  ◌==◌, ==_refl, comparable_nat, comparable_text, comparable_pair, length, length-append, last?,
  last?-snoc, keep_last, length-keep_last, keep_last-short, keep_last-snoc, keep_last-append, All,
  All-append, All-keep_last, All-map, keep_if, any_of, count_if, contains, Result, ok, err, ◌>>=◌,
  ◌>>◌, raise_if, is_ok, Result-cases, Ensures, Ensures-bind, ℤ, pos, negsuc, is_negative,
}
use real_time_surveillance_a.Dict.{Dict, lookup, insert}
use real_time_surveillance_a.Desktop.Rows.{update_where, rowcount}
pub mod Claims
pub mod Outcomes
pub mod Order
pub mod Held
pub mod Failures
pub mod Purge
pub mod Rests
mod Tests

pub data ItemState : Type 0 where
  pending inflight retry_wait succeeded dead_letter cancelled : ItemState

pub data FailureClass : Type 0 where
  transient permanent : FailureClass

pub record Payload : Type 0 where
  pub kind : Option String
  pub method : Option String
  pub body : String

pub record Item : Type 0 where
  pub endpoint : String
  pub payload : Payload
  pub logical_key : String
  pub version : ℕ
  pub predecessor_id : Option String
  pub depends_on_id : Option String
  pub state : ItemState
  pub attempt_count : ℕ
  pub max_attempts : ℕ
  pub next_attempt_at : ℕ
  pub last_attempt_at : Option ℕ
  pub lease_expires_at : Option ℕ
  pub claim_token : Option String
  pub lease_owner : Option String
  pub last_error_code : Option String
  pub last_error_message : Option String
  pub failure_class : Option FailureClass
  pub failed_at : Option ℕ
  pub completed_at : Option ℕ
  pub created_at : ℕ

abbrev pub Queue : Type 0
Queue = Dict String Item

abbrev pub same_state : ItemState → ItemState → Bool
same_state pending pending = true
same_state inflight inflight = true
same_state retry_wait retry_wait = true
same_state succeeded succeeded = true
same_state dead_letter dead_letter = true
same_state cancelled cancelled = true
same_state _ _ = false

-- `state IN ('pending','retry_wait')`
abbrev pub is_waiting : ItemState → Bool
is_waiting pending = true
is_waiting retry_wait = true
is_waiting _ = false

-- `SELECT * … WHERE logical_key=? ORDER BY version DESC LIMIT 1`
unfoldable pub latest : String → Queue → Option (String × Item)
latest key [] = none
latest key ((id, i) ∷ q) =
    let rest = latest key q in
    if i.logical_key == key
    then elim rest [
      | none ↦ some (id, i)
      | some (id', i') ↦ if ltb i.version i'.version then some (id', i') else some (id, i)
    ]
    else rest

-- Work that was never handed out, which a later write may replace.
unfoldable pub is_unleased : Item → Bool
is_unleased i = same_state i.state pending && not (is_some i.last_attempt_at)

unfoldable pub coalesce : ℕ → String → Payload → Option String → Item → Item
coalesce now endpoint payload depends_on_id i = record i {
  endpoint = endpoint;
  payload = payload;
  state = pending;
  attempt_count = 0;
  next_attempt_at = now;
  depends_on_id = elim depends_on_id [ none ↦ i.depends_on_id | some id ↦ some id ];
  last_error_code = none;
  last_error_message = none;
  failure_class = none;
  failed_at = none;
}

unfoldable pub new_item :
    ℕ → String → Payload → String → ℕ → Option String → Option (String × Item) → Item
new_item now endpoint payload key max_attempts depends_on_id before = record {
  endpoint = endpoint;
  payload = payload;
  logical_key = key;
  version = elim before [ none ↦ 1 | some (id, i) ↦ i.version + 1 ];
  predecessor_id = elim before [ none ↦ none | some (id, i) ↦ some id ];
  depends_on_id = depends_on_id;
  state = pending;
  attempt_count = 0;
  max_attempts = max_attempts;
  next_attempt_at = now;
  last_attempt_at = none;
  lease_expires_at = none;
  claim_token = none;
  lease_owner = none;
  last_error_code = none;
  last_error_message = none;
  failure_class = none;
  failed_at = none;
  completed_at = none;
  created_at = now;
}

-- The row that a further version of the key follows, unless it can be replaced.
abbrev pub replaceable : Option (String × Item) → Option String
replaceable none = none
replaceable (some (id, i)) = if is_unleased i then some id else none

-- `_enqueue`, which returns the id of the row that holds the request.
unfoldable pub enqueue :
    ℕ → String → String → Payload → String → ℕ → Option String → Queue → String × Queue
unfolding latest is_unleased coalesce new_item
enqueue now fresh_id endpoint payload key max_attempts depends_on_id q =
    let before = latest key q in
    elim (replaceable before) [
      | some id ↦ (
        id,
        update_where (λ k i. k == id && is_waiting i.state)
            (coalesce now endpoint payload depends_on_id) q,
      )
      | none ↦ (
        fresh_id,
        insert fresh_id (new_item now endpoint payload key max_attempts depends_on_id before) q,
      )
    ]

-- `claim_token=NULL,lease_owner=NULL,lease_expires_at=NULL`
abbrev pub release : Item → Item
release i = record i { claim_token = none; lease_owner = none; lease_expires_at = none }

abbrev pub same_text : Option String → String → Bool
same_text text t = elim text [ none ↦ false | some s ↦ s == t ]

abbrev pub is_claimed_by : String → String → Item → Bool
is_claimed_by token owner i = same_text i.claim_token token && same_text i.lease_owner owner
