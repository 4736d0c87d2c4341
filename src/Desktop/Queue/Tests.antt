-- ===== src/Desktop/Queue/Tests.antt =====
-- A queue in which a worker holds the first version of a camera's request, and a second version
-- waits for it.
use real_time_surveillance_a.Base.{
  ◌+◌, ◌≤◌, ◌<◌, ◌≡◌, refl, true, false, not, ◌||◌, none, some, [], ◌∷◌, leb, is_some,
  comparable_nat, comparable_text, comparable_pair, length, keep_if, count_if, contains,
}
use real_time_surveillance_a.Dict.{lookup, erase}
use real_time_surveillance_a.Desktop.Rows.{rowcount, update_where, holds, updated}
use real_time_surveillance_a.Desktop.Queue.{
  Item, Queue, pending, inflight, retry_wait, succeeded, dead_letter, same_state,
}
use real_time_surveillance_a.Desktop.Queue.Claims.{
  is_expired, requeue_expired, link_done, is_ready, comes_before, insert_sorted, sorted, take_ids,
  ready_ids, lease, claim_rows,
}
use real_time_surveillance_a.Desktop.Queue.Outcomes.{is_owned, fail_row, fail}
use real_time_surveillance_a.Desktop.Queue.Order.{claim_rows-is_ready}
use real_time_surveillance_a.Desktop.Queue.Failures.{fail-lookup}
use real_time_surveillance_a.Desktop.Queue.Held.{is_held}
use real_time_surveillance_a.Desktop.Queue.Purge.{
  is_purgeable, is_created_before, insert_oldest, oldest_first, candidates, followers, descendants,
  cancel, cancel_followers, forget, purge_row, purge_rows, purge_retained,
}
use real_time_surveillance_a.Desktop.Queue.Purge.Held.{purge_retained-is_held}

abbrev second : Item
second = record {
  endpoint = "/api/v1/cameras/gate";
  payload = record { kind = some "camera"; method = some "PATCH"; body = "{}" };
  logical_key = "camera:gate";
  version = 2;
  predecessor_id = some "v1";
  depends_on_id = none;
  state = pending;
  attempt_count = 0;
  max_attempts = 8;
  next_attempt_at = 95;
  last_attempt_at = none;
  lease_expires_at = none;
  claim_token = none;
  lease_owner = none;
  last_error_code = none;
  last_error_message = none;
  failure_class = none;
  failed_at = none;
  completed_at = none;
  created_at = 95;
}

abbrev first : Item
first = record second {
  version = 1;
  predecessor_id = none;
  state = inflight;
  attempt_count = 3;
  created_at = 90;
  lease_expires_at = some 160;
  claim_token = some "t1";
  lease_owner = some "sync";
}

abbrev two_versions : Queue
two_versions = ("v1", first) ∷ ("v2", second) ∷ []

-- After the first version has succeeded.
abbrev one_done : Queue
one_done =
    ("v1", record first { state = succeeded; claim_token = none; lease_owner = none })
    ∷ ("v2", second)
    ∷ []

claim_rows-is_ready_example :
    (holds (is_ready 120 none (requeue_expired 120 one_done)) "v2" (requeue_expired 120 one_done)
      ≡ true)
    × (lookup "v2" (claim_rows "t2" "sync" 120 60 5 none one_done)
        ≡ updated
            (λ k i. true)
            (lease "t2" "sync" 120 (120 + 60))
            "v2"
            (lookup "v2" (requeue_expired 120 one_done)))
claim_rows-is_ready_example =
    claim_rows-is_ready "t2" "sync" 120 60 5 none "v2" one_done
      (unfold lookup in (refl, (refl, tt))) (unfold holds lookup in refl)
      (unfold holds lookup claim_rows requeue_expired is_expired ready_ids is_ready link_done sorted
          insert_sorted comes_before take_ids lease update_where keep_if contains in
        refl)

fail-lookup_example :
    let failed = fail_row 130 "503" "unavailable" false first in
    ((fail "v1" "t1" "sync" 130 "503" "unavailable" false two_versions).0 ≡ true)
    × (lookup "v1" (fail "v1" "t1" "sync" 130 "503" "unavailable" false two_versions).1
        ≡ some failed)
    × (same_state failed.state dead_letter ≡ (false || leb first.max_attempts first.attempt_count))
    × (same_state failed.state retry_wait ≡ not (same_state failed.state dead_letter))
    × (is_some failed.claim_token ≡ false)
    × (130 < failed.next_attempt_at)
    × (failed.next_attempt_at ≤ 130 + 300)
fail-lookup_example =
    fail-lookup "v1" "t1" "sync" 130 "503" "unavailable" false first two_versions
      (unfold lookup in (refl, (refl, tt))) (unfold lookup in refl) (unfold is_owned in refl)

-- While the first version is in flight, the second is not handed out.
waits_for_first : ready_ids 120 5 none (requeue_expired 120 two_versions) ≡ []
unfolding requeue_expired is_expired ready_ids is_ready link_done sorted insert_sorted comes_before
    take_ids update_where keep_if lookup
waits_for_first = refl

-- The first version is a dead letter of long ago, and the second is in flight.
abbrev after_failure : Queue
after_failure =
    ("v1", record second { state = dead_letter; predecessor_id = none; failed_at = some 10 })
    ∷ ("v2", record first { predecessor_id = some "v1" })
    ∷ []

purge_retained-is_held_example :
    holds (is_held "t1" "sync" 160) "v2" (purge_retained 200 50 50 after_failure).1 ≡ true
purge_retained-is_held_example =
    purge_retained-is_held 200 50 50 160 "v2" "t1" "sync" after_failure
      (unfold lookup in (refl, (refl, tt))) (unfold holds lookup in refl)

-- The dead letter is deleted, and the second version follows nothing any more.
purges_failure :
    purge_retained 200 50 50 after_failure
    ≡ (1, ("v2", record first { predecessor_id = none }) ∷ [])
unfolding purge_retained candidates is_purgeable oldest_first insert_oldest is_created_before
    purge_rows purge_row cancel_followers descendants followers forget cancel update_where rowcount
    erase keep_if contains count_if length
purges_failure = refl
