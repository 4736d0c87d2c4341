-- ===== src/Desktop/Queue/Failures.antt =====
-- What a failure does to the row that failed.
use Prim.Native.Nat.{◌^◌}
use real_time_surveillance_a.Base.{
  ℕ, zero, suc, ◌+◌, ◌≤◌, ◌<◌, min, String, ◌≡◌, refl, Bool, true, false, not, ◌&&◌, ◌||◌, none,
  some, arith, ltb, leb, is_some, ◌==◌, comparable_nat, comparable_text, comparable_pair,
}
use real_time_surveillance_a.Dict.{lookup, HasUniqueKeys}
use real_time_surveillance_a.Desktop.Rows.{rowcount, holds, lookup-update_where, rowcount-holds}
use real_time_surveillance_a.Desktop.Queue.{
  Item, Queue, inflight, retry_wait, dead_letter, same_state, is_claimed_by,
}
use real_time_surveillance_a.Desktop.Queue.Outcomes.{is_owned, is_dead, retry_delay, fail_row, fail}

power_positive : (k : ℕ) → 1 ≤ 2 ^ k
power_positive zero = omega arith
power_positive (suc k) = omega (arith, power_positive k)

retry_delay-bounds : (n : ℕ) → (1 ≤ retry_delay n) × (retry_delay n ≤ 300)
unfolding retry_delay
retry_delay-bounds n =
    let positive = power_positive (min n 8) in (omega (arith, positive), omega (arith, positive))

abbrev owned_row : String → String → ℕ → Item → Bool
owned_row token owner now i =
    is_claimed_by token owner i
    && same_state i.state inflight
    && elim i.lease_expires_at [ none ↦ false | some t ↦ ltb now t ]

owned_rowcount :
    (id token owner : String) (now : ℕ) (i : Item) (q : Queue)
    → HasUniqueKeys q
    → lookup id q ≡ some i
    → is_owned id token owner now id i ≡ true
    → (rowcount (is_owned id token owner now) q ≡ 1)
      × (rowcount (λ k i. k == id && is_claimed_by token owner i) q ≡ 1)
unfolding is_owned holds
owned_rowcount id token owner now i q u e owned = (
  ground (arith, rowcount-holds (owned_row token owner now) id q u),
  ground (arith, rowcount-holds (is_claimed_by token owner) id q u),
)

fail_row-bounds :
    (now : ℕ) (code message : String) (permanently : Bool) (i : Item)
    → let failed = fail_row now code message permanently i in
      (same_state failed.state dead_letter ≡ (permanently || leb i.max_attempts i.attempt_count))
      × (same_state failed.state retry_wait ≡ not (same_state failed.state dead_letter))
      × (is_some failed.claim_token ≡ false)
      × (now < failed.next_attempt_at)
      × (failed.next_attempt_at ≤ now + 300)
unfolding fail_row is_dead
fail_row-bounds now code message permanently i =
    let bounds = retry_delay-bounds i.attempt_count in
    (ground arith, ground arith, refl, omega (arith, bounds.0), omega (arith, bounds.1))

-- The row that its owner reports as failed in time is given back: it is put aside as a dead
-- letter exactly if the failure is permanent or the attempts are used up, and otherwise waits,
-- for at least one second and at most 300, with nobody holding it.
pub fail-lookup :
    (id token owner : String) (now : ℕ) (code message : String) (permanently : Bool) (i : Item)
    (q : Queue)
    → HasUniqueKeys q
    → lookup id q ≡ some i
    → is_owned id token owner now id i ≡ true
    → let failed = fail_row now code message permanently i in
      ((fail id token owner now code message permanently q).0 ≡ true)
      × (lookup id (fail id token owner now code message permanently q).1 ≡ some failed)
      × (same_state failed.state dead_letter ≡ (permanently || leb i.max_attempts i.attempt_count))
      × (same_state failed.state retry_wait ≡ not (same_state failed.state dead_letter))
      × (is_some failed.claim_token ≡ false)
      × (now < failed.next_attempt_at)
      × (failed.next_attempt_at ≤ now + 300)
unfolding fail is_owned
fail-lookup id token owner now code message permanently i q u e owned =
    let rows = owned_rowcount id token owner now i q u e owned in
    let after = fail_row-bounds now code message permanently i in
    let claimed : (id == id && is_claimed_by token owner i) ≡ true = ground arith in
    (
      rw (rows.0, rows.1) refl,
      rw (rows.0, lookup-update_where, e, claimed) refl,
      after.0,
      after.1,
      after.2,
      after.3,
      after.4,
    )
