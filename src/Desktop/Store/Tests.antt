-- ===== src/Desktop/Store/Tests.antt =====
-- An edge machine on which camera `gate` waits for its creation, which is in the hands of the
-- synchronisation until instant 160, and a count of another camera that was sent.
use Prim.Native.String.{◌++◌ as ◌+++◌}
use real_time_surveillance_a.Base.{
  ◌≡◌, refl, true, false, none, some, List, [], ◌∷◌, arith, comparable_nat, comparable_text,
  comparable_pair, keep_if, count_if, contains,
}
use real_time_surveillance_a.Dict.{lookup, insert, erase, drop_if}
use real_time_surveillance_a.Desktop.Rows.{update_where, holds, rowcount}
use real_time_surveillance_a.Desktop.Queue.{
  pending, inflight, succeeded, Item, latest, enqueue, is_unleased, coalesce, new_item,
}
use real_time_surveillance_a.Desktop.Queue.Claims.{
  is_expired, requeue_expired, link_done, is_ready, comes_before, insert_sorted, sorted, take_ids,
  ready_ids, lease, claim_rows,
}
use real_time_surveillance_a.Desktop.Queue.Outcomes.{complete_row, fail, is_owned, succeed}
use real_time_surveillance_a.Desktop.Store.State.{active, unsynced, Camera, Database}
use real_time_surveillance_a.Desktop.Store.Sessions.{
  update_current, mark_revocation_pending, complete_revocation,
}
use real_time_surveillance_a.Desktop.Store.Cameras.{Texts, complete_camera, delete, cancel_unsent}
use real_time_surveillance_a.Desktop.Store.Readings.{complete}
use real_time_surveillance_a.Desktop.Store.Steps.{Step, run, BringsNew, perform}
use real_time_surveillance_a.Desktop.Store.Leases.{is_settled, run-is_settled, run-is_held}
use real_time_surveillance_a.Desktop.Queue.Held.{is_held}
use real_time_surveillance_a.Desktop.Store.Completion.{complete_row-run, complete-unowned}
use real_time_surveillance_a.Desktop.Store.Revocation.{
  is_logged_in, run-is_logged_in, Change, take_change, take_change-run,
}

abbrev plain_texts : Texts
plain_texts = record {
  concat = λ a b. a +++ b;
  encrypt = λ a b. a;
  post_body = λ id c. c.name;
  patch_body = λ id changes c. c.name;
  delete_body = λ id. id;
}

abbrev waiting_item : Item
waiting_item = record {
  endpoint = "/api/v1/cameras/";
  payload = record { kind = some "camera"; method = some "POST"; body = "gate" };
  logical_key = "camera:gate";
  version = 1;
  predecessor_id = none;
  depends_on_id = none;
  state = pending;
  attempt_count = 0;
  max_attempts = 8;
  next_attempt_at = 90;
  last_attempt_at = none;
  lease_expires_at = none;
  claim_token = none;
  lease_owner = none;
  last_error_code = none;
  last_error_message = none;
  failure_class = none;
  failed_at = none;
  completed_at = none;
  created_at = 90;
}

abbrev held_item : Item
held_item = record waiting_item {
  state = inflight;
  attempt_count = 1;
  last_attempt_at = some 100;
  lease_expires_at = some 160;
  claim_token = some "t1";
  lease_owner = some "sync";
}

abbrev sent_item : Item
sent_item = record waiting_item {
  logical_key = "count:c7";
  state = succeeded;
  completed_at = some 95;
}

abbrev gate_camera : Camera
gate_camera = record {
  server_id = none;
  name = "gate";
  stream_url_encrypted = "rtsp";
  stream_type = "rtsp";
  location_label = none;
  analytics_config = "{}";
  zones = "[]";
  is_active = true;
  sync_state = unsynced;
  created_at = 90;
  updated_at = 90;
}

abbrev office : Database
office = record {
  session = some (record {
    encrypted_payload = "secret";
    user_id = "u1";
    license_valid_until = none;
    updated_at = 80;
    generation = 4;
    status = active;
    last_error = none;
  });
  cameras = ("gate", gate_camera) ∷ [];
  events = [];
  alerts = [];
  counts = [];
  queue = ("post", held_item) ∷ ("sent", sent_item) ∷ [];
}

-- A logout that failed is queued, another worker claims while the lease runs, a session is refreshed, and a failure that names a
-- token of its own.
abbrev others : List Step
others =
    Step.enqueues_revocation 149 "r9" "{}" 8
    ∷ Step.claims "t2" "other" 150 60 10 none
    ∷ Step.replaces 151 "fresh" 900 4
    ∷ Step.fails "post" "t2" "other" 152 "503" "unavailable" false
    ∷ Step.retries 153 "sent"
    ∷ []

no_clash : BringsNew plain_texts others office
unfolding lookup
no_clash = (refl, (tt, (tt, (tt, (tt, tt)))))

run-is_settled_example : holds is_settled "sent" (run plain_texts others office).queue ≡ true
run-is_settled_example =
    run-is_settled plain_texts others "sent" office no_clash (unfold holds lookup in refl)

run-is_held_example :
    holds (is_held "t1" "sync" 160) "post" (run plain_texts others office).queue ≡ true
run-is_held_example =
    run-is_held plain_texts others "post" "t1" "sync" 160 office no_clash
      (refl, (refl, (refl, (refl, (refl, tt))))) (unfold holds lookup in refl)

complete_row-run_example :
    ((complete_row "post" "t1" "sync" 155 (run plain_texts others office).queue).0 ≡ true)
    × (holds is_settled "post"
          (complete_row "post" "t1" "sync" 155 (run plain_texts others office).queue).1
        ≡ true)
complete_row-run_example =
    complete_row-run plain_texts others "post" "t1" "sync" 155 160 office no_clash
      (unfold lookup in (refl, (refl, tt))) (refl, (refl, (refl, (refl, (refl, tt)))))
      (unfold holds lookup in refl) (omega arith)

complete-unowned_example :
    (complete 155 "post" "t2" "other" office ≡ (false, office))
    × (complete_camera plain_texts 155 "post" "t2" "other" "gate" "s9" office ≡ (false, office))
    × (complete_revocation 155 "post" "t2" "other" 4 office ≡ (false, office))
    × (fail "post" "t2" "other" 155 "503" "unavailable" true office.queue ≡ (false, office.queue))
complete-unowned_example =
    complete-unowned plain_texts "post" "t2" "other" "gate" "s9" "503" "unavailable" true 155 4
      office (unfold lookup in (refl, (refl, tt))) (unfold holds lookup in refl)

run-is_logged_in_example : is_logged_in (run plain_texts others office).session ≡ true
run-is_logged_in_example =
    run-is_logged_in plain_texts others office (refl, (refl, (refl, (refl, (refl, tt))))) refl

take_change-run_example :
    let after = run plain_texts others (take_change (Change.marks 140) 4 office).1 in
    take_change (Change.refreshes 154 "stale" 900) 4 after ≡ (false, after)
take_change-run_example =
    take_change-run plain_texts (Change.marks 140) (Change.refreshes 154 "stale" 900) 4 others
      office (unfold take_change mark_revocation_pending update_current in refl)
      (refl, (refl, (refl, (refl, (refl, tt)))))

-- After the lease has run out, another worker gets the row with a further attempt.
claim_again :
    (lookup "post" (claim_rows "t2" "other" 161 60 10 none office.queue))
    ≡ some (record held_item {
      state = inflight;
      attempt_count = 2;
      next_attempt_at = 161;
      last_attempt_at = some 161;
      lease_expires_at = some 221;
      claim_token = some "t2";
      lease_owner = some "other";
    })
unfolding claim_rows requeue_expired ready_ids lease is_expired is_ready link_done sorted
    insert_sorted comes_before take_ids update_where lookup contains keep_if
claim_again = refl

-- The creation of the camera is in flight and a change of it waits when the camera is deleted: only
-- the change is cancelled, and no request asks the central server to delete the camera that the
-- creation then makes there.
abbrev changed_office : Database
changed_office = record office {
  queue =
      ("post", held_item)
      ∷ ("patch", record waiting_item { version = 2; predecessor_id = some "post" })
      ∷ [];
}

deletes_changed :
    let after =
      run plain_texts
        (Step.deletes 110 "del" "gate" 8
          ∷ Step.completes_camera 120 "post" "t1" "sync" "gate" "s9"
          ∷ [])
        changed_office in
    (after.cameras ≡ [])
    × (holds is_settled "post" after.queue ≡ true)
    × (holds is_settled "patch" after.queue ≡ true)
    × (lookup "del" after.queue ≡ none)
unfolding run perform delete complete_camera complete_row is_owned succeed cancel_unsent latest
    update_where rowcount holds lookup erase drop_if count_if enqueue is_unleased coalesce new_item
    insert
deletes_changed = (refl, refl, refl, refl)
