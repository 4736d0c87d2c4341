-- ===== src/Desktop/Queue/Order.antt =====
-- What a claim hands out.
use real_time_surveillance_a.Base.{
  ℕ, zero, suc, ◌+◌, String, ◌≡◌, refl, sym, ap, ◌∙◌, inl, inr, Bool, true, false, ◌&&◌, ◌||◌,
  Option, List, [], ◌∷◌, arith, Bool-cases, Option-cases, ◌==◌, comparable_nat, comparable_text,
  comparable_pair, keep_if, any_of, contains,
}
use real_time_surveillance_a.Dict.{lookup, HasUniqueKeys}
use real_time_surveillance_a.Desktop.Rows.{
  update_where, holds, updated, lookup-update_where, update_where-HasUniqueKeys,
}
use real_time_surveillance_a.Desktop.Queue.{Item, Queue, is_waiting, is_claimed_by}
use real_time_surveillance_a.Desktop.Queue.Claims.{
  insert_sorted, sorted, take_ids, is_ready, ready_ids, requeue_expired, lease, claim_rows,
}

contains-take_ids :
    (id : String) (n : ℕ) (xs : List (String × Item))
    → contains id (take_ids n xs) ≡ true
    → any_of (λ e. id == e.0) xs ≡ true
unfolding take_ids contains any_of
contains-take_ids id zero xs h = ground arith
contains-take_ids id (suc n) [] h = h
contains-take_ids id (suc n) ((k, i) ∷ xs) h = elim (Bool-cases (id == k)) [
  | inl e ↦ ground arith
  | inr e ↦ ground (arith, contains-take_ids id n xs (ground arith))
]

any_of-insert_sorted :
    (r : String × Item → Bool) (x : String × Item) (ys : List (String × Item))
    → any_of r (insert_sorted x ys) ≡ (r x || any_of r ys)
unfolding insert_sorted any_of
any_of-insert_sorted r x [] = refl
any_of-insert_sorted r x (y ∷ ys) = ground (arith, any_of-insert_sorted r x ys)

any_of-sorted :
    (r : String × Item → Bool) (xs : List (String × Item)) → any_of r (sorted xs) ≡ any_of r xs
unfolding sorted any_of
any_of-sorted r [] = refl
any_of-sorted r (x ∷ xs) =
    any_of-insert_sorted r x (sorted xs) ∙ ap (λ b. r x || b) (any_of-sorted r xs)

any_of-keep_if :
    (r s : String × Item → Bool) (xs : List (String × Item))
    → any_of r (keep_if s xs) ≡ true
    → any_of (λ e. r e && s e) xs ≡ true
unfolding keep_if any_of
any_of-keep_if r s [] h = h
any_of-keep_if r s (x ∷ xs) h = ground (arith, any_of-keep_if r s xs)

==_flip : (a b : String) → (a == b) ≡ true → (b == a) ≡ true
==_flip a b h = (comparable_text.same_iff b a).1 (sym ((comparable_text.same_iff a b).0 h))

any_of-holds :
    (p : Item → Bool) (id : String) (d : Queue)
    → HasUniqueKeys d
    → any_of (λ e. id == e.0 && p e.1) d ≡ true
    → holds p id d ≡ true
unfolding holds lookup any_of
any_of-holds p id [] u h = h
any_of-holds p id ((k, i) ∷ d) u h = elim (Bool-cases (k == id)) [
  | inl e ↦
      ground
        (arith, any_of-holds p id d u.1, ap (λ j. lookup j d) ((comparable_text.same_iff k id).0 e))
  | inr e ↦ ground (arith, any_of-holds p id d u.1, ==_flip id k)
]

ready_ids-holds :
    (now limit : ℕ) (key : Option String) (id : String) (q : Queue)
    → HasUniqueKeys q
    → contains id (ready_ids now limit key q) ≡ true
    → holds (is_ready now key q) id q ≡ true
unfolding ready_ids
ready_ids-holds now limit key id q u h = any_of-holds (is_ready now key q) id q u (
    any_of-keep_if (λ e. id == e.0) (λ e. is_ready now key q e.1) q
      (sym (any_of-sorted (λ e. id == e.0) _) ∙ contains-take_ids id limit _ h))

requeue_expired-HasUniqueKeys :
    (now : ℕ) (q : Queue) → HasUniqueKeys q → HasUniqueKeys (requeue_expired now q)
unfolding requeue_expired
requeue_expired-HasUniqueKeys now q u = update_where-HasUniqueKeys _ _ q u

requeue_expired-unclaimed :
    (token owner id : String) (now : ℕ) (q : Queue)
    → holds (is_claimed_by token owner) id q ≡ false
    → holds (is_claimed_by token owner) id (requeue_expired now q) ≡ false
unfolding requeue_expired holds
requeue_expired-unclaimed token owner id now q h = elim (Option-cases (lookup id q)) [
  | inl e ↦ rw (lookup-update_where, e) refl
  | inr (i, e) ↦ rw (lookup-update_where, e) (ground arith)
]

leased_row :
    (token owner id : String) (now expires : ℕ) (ids : List String) (q : Queue)
    → holds (is_claimed_by token owner) id q ≡ false
    → let leased =
        update_where
          (λ k i. contains k ids && is_waiting i.state)
          (lease token owner now expires)
          q in
      holds (is_claimed_by token owner) id leased ≡ true
      → (contains id ids ≡ true)
        × (lookup id leased
            ≡ updated (λ k i. true) (lease token owner now expires) id (lookup id q))
unfolding holds
leased_row token owner id now expires ids q fresh h =
    let moved =
      lookup-update_where (λ k i. contains k ids && is_waiting i.state)
        (lease token owner now expires) id q in
    elim (Option-cases (lookup id q)) [
      | inl e ↦ ground (arith, moved)
      | inr (i, e) ↦ elim (Bool-cases (contains id ids && is_waiting i.state)) [
        | inl t ↦ (ground arith, rw (moved, e, t) refl)
        | inr t ↦ ground (arith, moved)
      ]
    ]

-- A row that a claim hands out under its new token was ready once the expired leases were taken
-- back: it waited, its time had come, its predecessor was closed and what it depends on had
-- succeeded. It is leased to the owner of the claim, and one more attempt is counted.
pub claim_rows-is_ready :
    (token owner : String) (now seconds limit : ℕ) (key : Option String) (id : String) (q : Queue)
    → HasUniqueKeys q
    → holds (is_claimed_by token owner) id q ≡ false
    → holds (is_claimed_by token owner) id (claim_rows token owner now seconds limit key q) ≡ true
    → (holds (is_ready now key (requeue_expired now q)) id (requeue_expired now q) ≡ true)
      × (lookup id (claim_rows token owner now seconds limit key q)
          ≡ updated
              (λ k i. true)
              (lease token owner now (now + seconds))
              id
              (lookup id (requeue_expired now q)))
unfolding claim_rows
claim_rows-is_ready token owner now seconds limit key id q u fresh h =
    let q' = requeue_expired now q in
    let row =
      leased_row token owner id now (now + seconds) (ready_ids now limit key q') q'
        (requeue_expired-unclaimed token owner id now q fresh) h in
    (ready_ids-holds now limit key id q' (requeue_expired-HasUniqueKeys now q u) row.0, row.1)
