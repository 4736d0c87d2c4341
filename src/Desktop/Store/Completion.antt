-- ===== src/Desktop/Store/Completion.antt =====
-- The owner of a lease settles its row in time, and only the owner.
use real_time_surveillance_a.Base.{
  ℕ, ◌<◌, String, ◌≡◌, refl, inl, inr, Bool, true, false, ◌&&◌, none, some, List, arith, ltb,
  Option-cases, ==_refl, comparable_nat, comparable_text, comparable_pair, All,
}
use real_time_surveillance_a.Dict.{lookup, HasUniqueKeys}
use real_time_surveillance_a.Desktop.Rows.{
  holds, rowcount, rowcount-holds, lookup-update_where, update_where-unmet,
}
use real_time_surveillance_a.Desktop.Queue.{inflight, Item, Queue, same_state, is_claimed_by}
use real_time_surveillance_a.Desktop.Queue.Outcomes.{is_owned, succeed, complete_row, fail}
use real_time_surveillance_a.Desktop.Store.State.{Database}
use real_time_surveillance_a.Desktop.Store.Sessions.{complete_revocation}
use real_time_surveillance_a.Desktop.Store.Cameras.{Texts, complete_camera}
use real_time_surveillance_a.Desktop.Store.Readings.{complete}
use real_time_surveillance_a.Desktop.Store.Steps.{Step, run, BringsNew}
use real_time_surveillance_a.Desktop.Store.Keys.{run-HasUniqueKeys}
use real_time_surveillance_a.Desktop.Store.Leases.{is_settled, is_others, run-is_held}
use real_time_surveillance_a.Desktop.Queue.Held.{is_held}

-- The row test of `is_owned`.
abbrev pub owned_by : String → String → ℕ → Item → Bool
owned_by token owner now i =
    is_claimed_by token owner i
    && same_state i.state inflight
    && elim i.lease_expires_at [ none ↦ false | some t ↦ ltb now t ]

held_owned :
    (token owner : String) (until now : ℕ) (i : Item)
    → now < until
    → is_held token owner until i ≡ true
    → owned_by token owner now i ≡ true
held_owned token owner until now i early h = ground arith

complete_row_lem :
    (id token owner : String) (now until : ℕ) (q : Queue)
    → HasUniqueKeys q
    → now < until
    → holds (is_held token owner until) id q ≡ true
    → ((complete_row id token owner now q).0 ≡ true)
      × (holds is_settled id (complete_row id token owner now q).1 ≡ true)
unfolding complete_row is_owned succeed holds
complete_row_lem id token owner now until q unique early h = elim (Option-cases (lookup id q)) [
  | inl e ↦ ground arith
  | inr (i, e) ↦
      let held : is_held token owner until i ≡ true = ground arith in
      let owned = held_owned token owner until now i early held in
      (
        ground (arith, rowcount-holds (owned_by token owner now) id q unique),
        rw (lookup-update_where, e) (ground (arith, ==_refl id)),
      )
]

-- The owner of a row that completes it before its lease runs out succeeds, whatever
-- transactions but purging other tasks have run since it was handed out, if they neither complete
-- nor fail it under its token, and the row is then settled. Fresh ids are new.
pub complete_row-run :
    (texts : Texts) (steps : List Step) (id token owner : String) (now until : ℕ) (db : Database)
    → BringsNew texts steps db
    → HasUniqueKeys db.queue
    → All (λ step. is_others id token owner until step ≡ true) steps
    → holds (is_held token owner until) id db.queue ≡ true
    → now < until
    → ((complete_row id token owner now (run texts steps db).queue).0 ≡ true)
      × (holds is_settled id (complete_row id token owner now (run texts steps db).queue).1 ≡ true)
complete_row-run texts steps id token owner now until db new unique others h early =
    complete_row_lem id token owner now until (run texts steps db).queue
      (run-HasUniqueKeys texts steps db unique) early
      (run-is_held texts steps id token owner until db new others h)

unowned_rows :
    (id token owner : String) (now : ℕ) (q : Queue)
    → HasUniqueKeys q
    → holds (owned_by token owner now) id q ≡ false
    → rowcount (is_owned id token owner now) q ≡ 0
unfolding is_owned
unowned_rows id token owner now q unique h =
    ground (arith, rowcount-holds (owned_by token owner now) id q unique)

-- Who does not hold the lease of a row, or holds it no longer, cannot settle it: each way to
-- complete it and the way to fail it report false and change nothing.
pub complete-unowned :
    (texts : Texts) (id token owner local_id server_id code message : String) (permanently : Bool)
    (now generation : ℕ) (db : Database)
    → HasUniqueKeys db.queue
    → holds (owned_by token owner now) id db.queue ≡ false
    → (complete now id token owner db ≡ (false, db))
      × (complete_camera texts now id token owner local_id server_id db ≡ (false, db))
      × (complete_revocation now id token owner generation db ≡ (false, db))
      × (fail id token owner now code message permanently db.queue ≡ (false, db.queue))
unfolding complete complete_camera complete_revocation fail
complete-unowned texts id token owner local_id server_id code message permanently now generation db
      unique h =
    let zero_rows = unowned_rows id token owner now db.queue unique h in
    let unmet = update_where-unmet (is_owned id token owner now) (succeed now) db.queue zero_rows in
    (
      rw (zero_rows, unmet) refl,
      rw (zero_rows, unmet) refl,
      rw (zero_rows, unmet) refl,
      rw zero_rows refl,
    )
