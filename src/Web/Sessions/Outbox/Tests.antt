-- ===== src/Web/Sessions/Outbox/Tests.antt =====
-- Two rows wait: the first meets a session that does not parse, the second user's licences.
use real_time_surveillance_a.Base.{
  ℕ, ◌≡◌, refl, none, some, [], ◌∷◌, comparable_nat, comparable_text, comparable_pair, keep_if,
}
use real_time_surveillance_a.Dict.{lookup, insert}
use real_time_surveillance_a.Web.Sessions.{garbage, expire, unexpired}
use real_time_surveillance_a.Web.Sessions.Scripts.{delete_if_sid}
use real_time_surveillance_a.Web.Sessions.Outbox.{
  OutboxRow, SessionRow, revocation, reconciliation, Platform, Faults, update_live, awaiting,
  keys_of, with_keys, revoke_row, reconcile_row, valid_license, act, mark, report, conclude_row,
  process_row, process_rows, first_rows, process_session_outbox_once,
}

abbrev revoke_ana : OutboxRow
revoke_ana = record {
  id = 1;
  user_id = "ana";
  operation = revocation;
  sid = "s1";
  processed_at = none;
  attempts = 4;
  last_error = none;
}

abbrev reconcile_bo : OutboxRow
reconcile_bo = record revoke_ana {
  id = 2;
  user_id = "bo";
  operation = reconciliation;
  sid = "";
  attempts = 0;
}

abbrev bo_session : SessionRow
bo_session = record { user_id = "bo"; session_token = "tok"; revoked_at = none; expires_at = 900 }

abbrev two_waiting : Platform
two_waiting = record {
  redis =
      (
        "ana",
        record { session = some (record { value = garbage; expires_at = none }); refresh = none },
      )
      ∷ [];
  sessions = bo_session ∷ [];
  licenses = [];
  outbox = revoke_ana ∷ reconcile_bo ∷ [];
  next_id = 3;
}

abbrev quiet : ℕ → Faults
quiet id = record {
  fetching = none;
  updating = none;
  scripting = none;
  marking = none;
  reporting = none;
}

-- The first row is kept for a further attempt, and the second revokes its user's session, since no
-- licence is left.
processes_second :
    let o = process_session_outbox_once "script" 100 10 quiet two_waiting in
    (o.1 ≡ 1)
    × (o.2.outbox
        ≡ record revoke_ana { attempts = 5; last_error = some "script" }
          ∷ record reconcile_bo { attempts = 1; processed_at = some 100 }
          ∷ [])
    × (o.2.sessions ≡ record bo_session { revoked_at = some 100 } ∷ [])
unfolding process_session_outbox_once process_rows process_row conclude_row report awaiting act
    revoke_row reconcile_row valid_license update_live keys_of with_keys mark first_rows keep_if
    lookup insert delete_if_sid expire unexpired
processes_second = (refl, refl, refl)
