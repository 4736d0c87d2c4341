-- ===== src/Desktop/Queue/Outcomes.antt =====
-- `_owned_clause`, the update that all completions share, `fail`, and the two operations on dead
-- letters.
use Prim.Native.Nat.{◌^◌}
use real_time_surveillance_a.Base.{
  ℕ, ◌+◌, min, String, Bool, false, ◌&&◌, ◌||◌, Option, none, some, ltb, leb, if◌then◌else◌, ◌==◌,
  comparable_nat, comparable_text, comparable_pair,
}
use real_time_surveillance_a.Desktop.Rows.{update_where, rowcount}
use real_time_surveillance_a.Desktop.Queue.{
  Item, Queue, cancelled, dead_letter, inflight, is_claimed_by, pending, permanent, release,
  retry_wait, same_state, succeeded, transient,
}

abbrev is_after : Option ℕ → ℕ → Bool
is_after time now = elim time [ none ↦ false | some t ↦ ltb now t ]

-- `_owned_clause`
unfoldable pub is_owned : String → String → String → ℕ → String → Item → Bool
is_owned id token owner now k i =
    k == id
    && is_claimed_by token owner i
    && same_state i.state inflight
    && is_after i.lease_expires_at now

unfoldable pub succeed : ℕ → Item → Item
succeed now i = record (release i) { state = succeeded; completed_at = some now }

-- The update that the three kinds of completion share, and whether it met its row.
unfoldable pub complete_row : String → String → String → ℕ → Queue → Bool × Queue
unfolding is_owned succeed
complete_row id token owner now q = (
  rowcount (is_owned id token owner now) q == 1,
  update_where (is_owned id token owner now) (succeed now) q,
)

-- `min(300, 2 ** min(attempt_count, 8))`, in seconds.
unfoldable pub retry_delay : ℕ → ℕ
retry_delay attempt_count = min 300 (2 ^ min attempt_count 8)

unfoldable pub is_dead : Bool → Item → Bool
is_dead permanently i = permanently || leb i.max_attempts i.attempt_count

unfoldable pub fail_row : ℕ → String → String → Bool → Item → Item
unfolding is_dead retry_delay
fail_row now code message permanently i = record (release i) {
  state = if is_dead permanently i then dead_letter else retry_wait;
  next_attempt_at = now + retry_delay i.attempt_count;
  last_error_code = some code;
  last_error_message = some message;
  failure_class = some (if permanently then permanent else transient);
  failed_at = if is_dead permanently i then some now else none;
}

-- `fail`, where the two texts have been cut to 100 and 200 characters.
unfoldable pub fail : String → String → String → ℕ → String → String → Bool → Queue → Bool × Queue
unfolding is_owned fail_row
fail id token owner now code message permanently q =
    let owned = rowcount (is_owned id token owner now) q in
    if owned == 0 then (false, q) else (
      rowcount (λ k i. k == id && is_claimed_by token owner i) q == 1,
      update_where (λ k i. k == id && is_claimed_by token owner i)
          (fail_row now code message permanently) q,
    )

unfoldable pub retry_dead_letter : ℕ → String → Queue → Bool × Queue
retry_dead_letter now id q = (
  rowcount (λ k i. k == id && same_state i.state dead_letter) q == 1,
  update_where (λ k i. k == id && same_state i.state dead_letter)
      (λ i. record i {
        state = pending;
        attempt_count = 0;
        next_attempt_at = now;
        failed_at = none;
        failure_class = none;
        last_error_code = none;
        last_error_message = none;
      })
      q,
)

unfoldable pub discard_dead_letter : ℕ → String → Queue → Bool × Queue
discard_dead_letter now id q = (
  rowcount (λ k i. k == id && same_state i.state dead_letter) q == 1,
  update_where (λ k i. k == id && same_state i.state dead_letter)
      (λ i. record i { state = cancelled; completed_at = some now }) q,
)
