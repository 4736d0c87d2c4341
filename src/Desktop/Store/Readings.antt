-- ===== src/Desktop/Store/Readings.antt =====
-- `AnalyticsRepository`, and `SyncQueueRepository.complete`, which marks a reading as synchronised.
use text.Mathlib.Text.{starts_with}
use real_time_surveillance_a.Base.{
  ℕ, zero, suc, String, Bool, true, false, Option, none, some, [], ◌∷◌, ltb, if◌then◌else◌, is_some,
  ◌==◌, comparable_nat, comparable_text, comparable_pair, Result, ok, err, ◌>>=◌, ◌>>◌, raise_if,
}
use real_time_surveillance_a.Dict.{Dict, lookup, insert}
use real_time_surveillance_a.Desktop.Rows.{update_where}
use real_time_surveillance_a.Desktop.Queue.{Item, Payload, Queue, enqueue}
use real_time_surveillance_a.Desktop.Queue.Outcomes.{complete_row}
use real_time_surveillance_a.Desktop.Store.State.{Reading, Database}

pub data ReadingError : Type 0 where
  camera_missing camera_not_recorded reading_exists : ReadingError

-- `SELECT id … WHERE logical_key=? ORDER BY version ASC LIMIT 1`
unfoldable pub earliest : String → Queue → Option (String × Item)
earliest key [] = none
earliest key ((id, i) ∷ q) =
    let rest = earliest key q in
    if i.logical_key == key
    then elim rest [
      | none ↦ some (id, i)
      | some (id', i') ↦ if ltb i'.version i.version then some (id', i') else some (id, i)
    ]
    else rest

-- `_camera_dependency`: what a reading must wait for until the central server knows the camera.
unfoldable pub camera_dependency :
    (String → String → String) → String → Database → Result ReadingError (Option String)
unfolding earliest
camera_dependency concat camera_id db = elim (lookup camera_id db.cameras) [
  | none ↦ err camera_missing
  | some c ↦ elim c.server_id [
    | some server_id ↦ ok none
    | none ↦ elim (earliest (concat "camera:" camera_id) db.queue) [
      | none ↦ err camera_not_recorded
      | some (id, i) ↦ ok (some id)
    ]
  ]
]

pub data Kind : Type 0 where
  event alert count : Kind

abbrev pub prefix_of : Kind → String
prefix_of event = "event:"
prefix_of alert = "alert:"
prefix_of count = "count:"

abbrev pub endpoint_of : Kind → String
endpoint_of event = "/api/v1/sync/events"
endpoint_of alert = "/api/v1/sync/alerts"
endpoint_of count = "/api/v1/sync/people-count"

abbrev pub table_of : Kind → Database → Dict String Reading
table_of event db = db.events
table_of alert db = db.alerts
table_of count db = db.counts

abbrev pub with_table : Kind → Dict String Reading → Database → Database
with_table event t db = record db { events = t }
with_table alert t db = record db { alerts = t }
with_table count t db = record db { counts = t }

-- The dependency, unless the primary key refuses the row.
unfoldable pub insertion_dependency :
    Kind
    → (String → String → String)
    → String
    → String
    → Database
    → Result ReadingError (Option String)
unfolding camera_dependency
insertion_dependency kind concat reading_id camera_id db = do
  dependency ← camera_dependency concat camera_id db
  raise_if (is_some (lookup reading_id (table_of kind db))) reading_exists
  ok dependency

-- `add_event`, `add_alert` and `add_people_count`; `content` is the row's, and `body` the text of
-- the request.
unfoldable pub add_reading :
    Kind
    → (String → String → String)
    → ℕ
    → String
    → String
    → String
    → String
    → String
    → ℕ
    → Database
    → Result ReadingError Database
unfolding insertion_dependency enqueue
add_reading kind concat now fresh_id reading_id camera_id content body max_attempts db = do
  dependency ← insertion_dependency kind concat reading_id camera_id db
  let reading : Reading = record { camera_id = camera_id; content = content; synced = false }
  let request : Payload = record { kind = none; method = none; body = body }
  let queued =
      enqueue now fresh_id (endpoint_of kind) request (concat (prefix_of kind) reading_id)
        max_attempts dependency db.queue
  ok (record (with_table kind (insert reading_id reading (table_of kind db)) db) {
    queue = queued.1;
  })

-- `s[n:]`
unfoldable pub dropped : ℕ → String → String
dropped zero s = s
dropped (suc n) String.[] = String.[]
dropped (suc n) (String.◌∷◌ c s) = dropped n s

unfoldable pub kind_of : String → Option Kind
kind_of key =
    if starts_with key "event:"
    then some event
    else if starts_with key "alert:"
    then some alert
    else if starts_with key "count:"
    then some count
    else none

-- Each prefix has six characters.
unfoldable pub mark_synced : String → Database → Database
unfolding kind_of dropped
mark_synced key db = elim (kind_of key) [
  | none ↦ db
  | some kind ↦
      with_table kind
        (update_where (λ id r. id == dropped 6 key) (λ r. record r { synced = true })
          (table_of kind db))
        db
]

unfoldable pub complete : ℕ → String → String → String → Database → Bool × Database
unfolding complete_row mark_synced
complete now id token owner db =
    let (done, q) = complete_row id token owner now db.queue in
    let db' = record db { queue = q } in
    if done
    then elim (lookup id db.queue) [
      | none ↦ (false, db')
      | some i ↦ (true, mark_synced i.logical_key db')
    ]
    else (false, db')
