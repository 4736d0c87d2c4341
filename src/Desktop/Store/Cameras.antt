-- ===== src/Desktop/Store/Cameras.antt =====
-- `CameraRepository` and `complete_camera`. The cipher and the texts of the requests, which
-- pydantic writes, are parameters.
use real_time_surveillance_a.Base.{
  ℕ, String, Bool, true, false, not, ◌&&◌, ◌||◌, Option, none, some, leb, if◌then◌else◌, is_some,
  ◌==◌, comparable_nat, comparable_text, comparable_pair, length, Result, ok, err,
}
use real_time_surveillance_a.Dict.{lookup, insert, erase, drop_if}
use real_time_surveillance_a.Desktop.Rows.{update_where}
use real_time_surveillance_a.Desktop.Queue.{
  cancelled, Item, Payload, Queue, latest, is_unleased, is_waiting, enqueue,
}
use real_time_surveillance_a.Desktop.Queue.Outcomes.{complete_row}
use real_time_surveillance_a.Desktop.Store.State.{unsynced, synced, Camera, Reading, Database}

pub data CameraError : Type 0 where
  license_camera_limit_reached : CameraError

-- What `model_dump(exclude_unset=True)` gives: the fields that the client sent.
pub record CameraChanges : Type 0 where
  pub name : Option String
  pub stream_type : Option String
  pub location_label : Option (Option String)
  pub is_active : Option Bool
  pub stream_url : Option String
  pub analytics_config : Option String
  pub zones : Option String

abbrev pub given {ℓ} : {X : Type ℓ} → Option X → X → X
given none x = x
given (some y) x = y

-- `CameraCreate`, with the two mappings as their JSON texts.
pub record NewCamera : Type 0 where
  pub name : String
  pub stream_url : String
  pub stream_type : String
  pub location_label : Option String
  pub analytics_config : String
  pub zones : String

pub record Texts : Type 0 where
  pub concat : String → String → String
  pub encrypt : String → String → String
  pub post_body : String → Camera → String
  pub patch_body : String → CameraChanges → Camera → String
  pub delete_body : String → String

module _ (texts : Texts) where
  open texts use {concat, encrypt, post_body, patch_body, delete_body}

  abbrev pub camera_key : String → String
  camera_key camera_id = concat "camera:" camera_id

  abbrev pub camera_payload : String → String → Payload
  camera_payload method body = record { kind = some "camera"; method = some method; body = body }

  unfoldable pub new_camera : ℕ → String → NewCamera → Camera
  new_camera now camera_id request = record {
    server_id = none;
    name = request.name;
    stream_url_encrypted = encrypt request.stream_url (camera_key camera_id);
    stream_type = request.stream_type;
    location_label = request.location_label;
    analytics_config = request.analytics_config;
    zones = request.zones;
    is_active = true;
    sync_state = unsynced;
    created_at = now;
    updated_at = now;
  }

  unfoldable pub create :
      ℕ → String → String → NewCamera → ℕ → ℕ → Database → Result CameraError (Camera × Database)
  unfolding enqueue new_camera
  create now fresh_id camera_id request max_cameras max_attempts db =
      if leb max_cameras (length db.cameras)
      then err license_camera_limit_reached
      else (let camera = new_camera now camera_id request in
          let (id, q) =
            enqueue now fresh_id "/api/v1/cameras/"
              (camera_payload "POST" (post_body camera_id camera)) (camera_key camera_id)
              max_attempts none db.queue in
          ok (camera, record db { cameras = insert camera_id camera db.cameras; queue = q }))

  unfoldable pub change_camera : ℕ → String → CameraChanges → Camera → Camera
  change_camera now camera_id changes c = record c {
    name = given changes.name c.name;
    stream_type = given changes.stream_type c.stream_type;
    location_label = given changes.location_label c.location_label;
    is_active = given changes.is_active c.is_active;
    stream_url_encrypted = elim changes.stream_url [
      | none ↦ c.stream_url_encrypted
      | some url ↦ encrypt url (camera_key camera_id)
    ];
    analytics_config = given changes.analytics_config c.analytics_config;
    zones = given changes.zones c.zones;
    sync_state = unsynced;
    updated_at = now;
  }

  -- The creation of the camera is still in the queue, and was never handed out.
  unfoldable pub is_unsent_post : Option (String × Item) → Bool
  unfolding is_unleased
  is_unsent_post none = false
  is_unsent_post (some (id, i)) =
      is_unleased i && elim i.payload.method [ none ↦ false | some method ↦ method == "POST" ]

  unfoldable pub update_camera :
      ℕ → String → String → CameraChanges → ℕ → Database → Option Camera × Database
  unfolding change_camera is_unsent_post latest enqueue
  update_camera now fresh_id camera_id changes max_attempts db =
      elim (lookup camera_id db.cameras) [
        | none ↦ (none, db)
        | some c ↦
            let c' = change_camera now camera_id changes c in
            let is_post =
              not (is_some c.server_id)
              && is_unsent_post (latest (camera_key camera_id) db.queue) in
            let (id, q) =
              enqueue now fresh_id
                (if is_post then "/api/v1/cameras/" else concat "/api/v1/cameras/" camera_id)
                (if is_post
                  then camera_payload "POST" (post_body camera_id c')
                  else camera_payload "PATCH" (patch_body camera_id changes c'))
                (camera_key camera_id) max_attempts none db.queue in
            (some c', record db { cameras = insert camera_id c' db.cameras; queue = q })
      ]

  abbrev links_to : String → Option String → Bool
  links_to id link = elim link [ none ↦ false | some j ↦ j == id ]

  -- The request and those that wait for it.
  unfoldable pub cancel_unsent : ℕ → String → Queue → Queue
  cancel_unsent now id q =
      update_where (λ k i. (k == id || links_to id i.depends_on_id) && is_waiting i.state)
        (λ i. record i { state = cancelled; completed_at = some now }) q

  abbrev pub waiting_row : Option (String × Item) → Option String
  waiting_row none = none
  waiting_row (some (id, i)) = if is_waiting i.state then some id else none

  abbrev is_from : String → String → Reading → Bool
  is_from camera_id id r = r.camera_id == camera_id

  -- `ON DELETE CASCADE`: the local readings of the camera go with it.
  unfoldable pub delete : ℕ → String → String → ℕ → Database → Bool × Database
  unfolding cancel_unsent latest enqueue
  delete now fresh_id camera_id max_attempts db = elim (lookup camera_id db.cameras) [
    | none ↦ (false, db)
    | some c ↦
        let (id, q') =
          enqueue now fresh_id (concat "/api/v1/cameras/" camera_id)
            (camera_payload "DELETE" (delete_body camera_id)) (camera_key camera_id) max_attempts
            none db.queue in
        let q : Queue = elim c.server_id [
          | some server_id ↦ q'
          | none ↦ elim (waiting_row (latest (camera_key camera_id) db.queue)) [
            | some waiting ↦ cancel_unsent now waiting db.queue
            | none ↦ q'
          ]
        ] in
        (
          true,
          record db {
            cameras = erase camera_id db.cameras;
            events = drop_if (is_from camera_id) db.events;
            alerts = drop_if (is_from camera_id) db.alerts;
            counts = drop_if (is_from camera_id) db.counts;
            queue = q;
          },
        )
  ]

  -- No other camera has that `server_id`: the column is unique, and a second one would raise.
  unfoldable pub complete_camera :
      ℕ → String → String → String → String → String → Database → Bool × Database
  unfolding complete_row
  complete_camera now id token owner local_id server_id db =
      let (done, q) = complete_row id token owner now db.queue in
      let db' = record db { queue = q } in
      if done
      then (
        true,
        record db' {
          cameras =
              update_where (λ k c. k == local_id)
                (λ c. record c { server_id = some server_id; sync_state = synced }) db.cameras;
        },
      )
      else (false, db')
