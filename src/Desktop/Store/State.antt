-- ===== src/Desktop/Store/State.antt =====
-- The rows of the tables, and the database that holds them.
use real_time_surveillance_a.Base.{
  ℕ, String, Bool, true, false, Option, comparable_nat, comparable_text, comparable_pair,
}
use real_time_surveillance_a.Dict.{Dict}
use real_time_surveillance_a.Desktop.Queue.{Queue}

pub data SessionStatus : Type 0 where
  active revocation_pending : SessionStatus

abbrev pub same_status : SessionStatus → SessionStatus → Bool
same_status active active = true
same_status revocation_pending revocation_pending = true
same_status _ _ = false

pub record Session : Type 0 where
  pub encrypted_payload : String
  pub user_id : String
  pub license_valid_until : Option ℕ
  pub updated_at : ℕ
  pub generation : ℕ
  pub status : SessionStatus
  pub last_error : Option String

-- The texts `pending`, `synced` and `conflict` of the column `sync_state`.
pub data SyncState : Type 0 where
  unsynced synced conflict : SyncState

pub record Camera : Type 0 where
  pub server_id : Option String
  pub name : String
  pub stream_url_encrypted : String
  pub stream_type : String
  pub location_label : Option String
  pub analytics_config : String
  pub zones : String
  pub is_active : Bool
  pub sync_state : SyncState
  pub created_at : ℕ
  pub updated_at : ℕ

-- A row of the tables of events, of alerts or of counts.
pub record Reading : Type 0 where
  pub camera_id : String
  pub content : String
  pub synced : Bool

pub record Database : Type 0 where
  pub session : Option Session
  pub cameras : Dict String Camera
  pub events : Dict String Reading
  pub alerts : Dict String Reading
  pub counts : Dict String Reading
  pub queue : Queue
