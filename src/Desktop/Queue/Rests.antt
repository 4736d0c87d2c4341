-- ===== src/Desktop/Queue/Rests.antt =====
-- A test of a row that no operation of the queue makes false, since each of them asks for a row
-- that waits or is dead, or for one that its caller holds.
use real_time_surveillance_a.Base.{
  ℕ, String, ◌≡◌, inl, inr, Bool, true, false, ◌&&◌, ◌||◌, Option, none, arith, Bool-cases,
  Option-cases, ◌==◌, comparable_nat, comparable_text, comparable_pair,
}
use real_time_surveillance_a.Dict.{lookup}
use real_time_surveillance_a.Desktop.Rows.{
  update_where, rowcount, holds, update_where-holds, insert-holds,
}
use real_time_surveillance_a.Desktop.Queue.{
  inflight, dead_letter, Item, Payload, Queue, same_state, is_waiting, latest, replaceable, enqueue,
  is_claimed_by,
}
use real_time_surveillance_a.Desktop.Queue.Claims.{is_expired, requeue_expired, claim_rows}
use real_time_surveillance_a.Desktop.Queue.Outcomes.{
  is_owned, complete_row, fail, retry_dead_letter, discard_dead_letter,
}

-- No row that passes waits or is dead.
abbrev pub IsAtRest : (Item → Bool) → Type 0
IsAtRest q =
    (i : Item)
    → q i ≡ true
    → (is_waiting i.state ≡ false) × (same_state i.state dead_letter ≡ false)

module _ (q : Item → Bool) (rests : IsAtRest q) (id : String) (rows : Queue)
    (h : holds q id rows ≡ true) where
  pub waiting_update-holds :
      (p : String → Item → Bool) (f : Item → Item)
      → ((k : String) (i : Item)
          → p k i ≡ true
          → (is_waiting i.state || same_state i.state dead_letter) ≡ true)
      → holds q id (update_where p f rows) ≡ true
  waiting_update-holds p f waits =
      update_where-holds q p f id rows (λ i passes t. ground (arith, rests i passes, waits id i t))
        h

  pub enqueue-holds :
      (now : ℕ) (fresh endpoint : String) (payload : Payload) (key : String) (attempts : ℕ)
      (depends : Option String)
      → lookup fresh rows ≡ none
      → holds q id (enqueue now fresh endpoint payload key attempts depends rows).1 ≡ true
  unfolding enqueue
  enqueue-holds now fresh endpoint payload key attempts depends absent =
      elim (Option-cases (replaceable (latest key rows))) [
        | inl e ↦ rw (e, enqueue) (insert-holds q id fresh _ rows absent h)
        | inr (j, e) ↦ rw (e, enqueue) (waiting_update-holds _ _ λ k i t. ground arith)
      ]

  pub requeue_expired-holds :
      (now : ℕ)
      → ((i : Item) → q i ≡ true → is_expired now i ≡ false)
      → holds q id (requeue_expired now rows) ≡ true
  unfolding requeue_expired
  requeue_expired-holds now lives =
      update_where-holds q _ _ id rows (λ i passes t. ground (arith, lives i passes)) h

  pub complete_row-holds :
      (item token owner : String) (now : ℕ)
      → ((i : Item)
          → q i ≡ true
          → id == item && is_claimed_by token owner i && same_state i.state inflight ≡ false)
      → holds q id (complete_row item token owner now rows).1 ≡ true
  unfolding complete_row is_owned
  complete_row-holds item token owner now other =
      update_where-holds q _ _ id rows (λ i passes t. ground (arith, other i passes)) h

  pub fail-holds :
      (item token owner : String) (now : ℕ) (code message : String) (permanently : Bool)
      → ((i : Item) → q i ≡ true → id == item && is_claimed_by token owner i ≡ false)
      → holds q id (fail item token owner now code message permanently rows).1 ≡ true
  unfolding fail
  fail-holds item token owner now code message permanently other =
      elim (Bool-cases (rowcount (is_owned item token owner now) rows == 0)) [
        | inl e ↦ rw (e, fail) h
        | inr e ↦
            rw (e, fail)
              (update_where-holds q _ _ id rows (λ i passes t. ground (arith, other i passes)) h)
      ]

  pub retry_dead_letter-holds :
      (now : ℕ) (item : String) → holds q id (retry_dead_letter now item rows).1 ≡ true
  unfolding retry_dead_letter
  retry_dead_letter-holds now item = waiting_update-holds _ _ λ k i t. ground arith

  pub discard_dead_letter-holds :
      (now : ℕ) (item : String) → holds q id (discard_dead_letter now item rows).1 ≡ true
  unfolding discard_dead_letter
  discard_dead_letter-holds now item = waiting_update-holds _ _ λ k i t. ground arith

pub claim_rows-holds :
    (q : Item → Bool)
    → IsAtRest q
    → (id : String) (rows : Queue) → holds q id rows ≡ true
    → (token owner : String) (now seconds limit : ℕ) (key : Option String)
    → ((i : Item) → q i ≡ true → is_expired now i ≡ false)
    → holds q id (claim_rows token owner now seconds limit key rows) ≡ true
unfolding claim_rows
claim_rows-holds q rests id rows h token owner now seconds limit key lives =
    waiting_update-holds q rests id (requeue_expired now rows)
      (requeue_expired-holds q rests id rows h now lives) _ _ λ k i t. ground arith
