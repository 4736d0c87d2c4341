-- ===== src/Desktop/Queue/Purge/Held.antt =====
-- Purging leaves the rows in flight alone.
use real_time_surveillance_a.Base.{
  ℕ, String, ◌≡◌, refl, sym, ap, ◌∙◌, inl, inr, Bool, true, false, none, List, [], ◌∷◌, arith,
  Bool-cases, if_elim, Option-cases, ◌==◌, comparable_nat, comparable_text, comparable_pair, All,
  keep_if,
}
use real_time_surveillance_a.Dict.{lookup, erase, lookup-erase, HasUniqueKeys}
use real_time_surveillance_a.Desktop.Rows.{holds, update_where-holds}
use real_time_surveillance_a.Desktop.Queue.{
  Item, Queue, dead_letter, cancelled, inflight, same_state,
}
use real_time_surveillance_a.Desktop.Queue.Held.{is_held}
use real_time_surveillance_a.Desktop.Queue.Purge.{
  is_purgeable, is_created_before, insert_oldest, oldest_first, candidates, cancel_followers,
  forget, purge_row, purge_rows, purge_retained,
}

-- A test that only rows in flight pass, and that reads no link.
pub record IsInFlight (q : Item → Bool) : Type 0 where
  pub flies : (i : Item) → q i ≡ true → same_state i.state inflight ≡ true
  pub unlinks_predecessor : (i : Item) → q (record i { predecessor_id = none }) ≡ q i
  pub unlinks_dependency : (i : Item) → q (record i { depends_on_id = none }) ≡ q i

abbrev AvoidsId : String → List (String × Item) → Type 0
AvoidsId id rows = All (λ e. (e.0 == id) ≡ false) rows

absent_named :
    (p : String × Item → Bool) (id : String) (rows : Queue)
    → lookup id rows ≡ none
    → AvoidsId id (keep_if p rows)
unfolding lookup keep_if
absent_named p id [] h = tt
absent_named p id ((k, i) ∷ rows) h =
    let rest = absent_named p id rows (ground arith) in
    if_elim (AvoidsId id) (p (k, i)) _ _ (λ e. (ground arith, rest)) λ e. rest

purgeable_named :
    (now dead : ℕ) (id : String) (rows : Queue)
    → HasUniqueKeys rows
    → holds (λ i. same_state i.state inflight) id rows ≡ true
    → AvoidsId id (keep_if (λ e. is_purgeable now dead e.1) rows)
unfolding lookup keep_if holds is_purgeable
purgeable_named now dead id [] u h = tt
purgeable_named now dead id ((k, i) ∷ rows) u h = elim (Bool-cases (k == id)) [
  | inl e ↦
      let gone = ap (λ j. lookup j rows) (sym ((comparable_text.same_iff k id).0 e)) ∙ u.0 in
      let rest = absent_named (λ e. is_purgeable now dead e.1) id rows gone in
      if_elim (AvoidsId id) (is_purgeable now dead i) _ _ (λ t. (ground arith, rest)) λ t. rest
  | inr e ↦
      let rest = purgeable_named now dead id rows u.1 (ground arith) in
      if_elim (AvoidsId id) (is_purgeable now dead i) _ _ (λ t. (e, rest)) λ t. rest
]

All-insert_oldest :
    (P : String × Item → Type 0) (x : String × Item) (ys : List (String × Item))
    → P x
    → All P ys
    → All P (insert_oldest x ys)
unfolding insert_oldest
All-insert_oldest P x [] h a = (h, tt)
All-insert_oldest P x (y ∷ ys) h a =
    if_elim (λ zs. All P zs) (is_created_before y x) _ _
      (λ e. (a.0, All-insert_oldest P x ys h a.1)) λ e. (h, a)

All-oldest_first :
    (P : String × Item → Type 0) (xs : List (String × Item)) → All P xs → All P (oldest_first xs)
unfolding oldest_first
All-oldest_first P [] a = tt
All-oldest_first P (x ∷ xs) a = All-insert_oldest P x _ a.0 (All-oldest_first P xs a.1)

module _ (q : Item → Bool) (flying : IsInFlight q) (id : String) where
  cancel_followers-holds :
      (now : ℕ) (k : String) (i : Item) (rows : Queue)
      → holds q id rows ≡ true
      → holds q id (cancel_followers now k i rows) ≡ true
  unfolding cancel_followers
  cancel_followers-holds now k i rows h =
      if_elim (λ r. holds q id r ≡ true) (same_state i.state dead_letter) _ _
        (λ e.
          update_where-holds q _ _ id rows (λ j passes t. ground (arith, flying.flies j passes)) h)
        λ e.
          if_elim (λ r. holds q id r ≡ true) (same_state i.state cancelled) _ _
            (λ e.
              update_where-holds q _ _ id rows (λ j passes t. ground (arith, flying.flies j passes))
                h)
            λ e. h

  forget-holds :
      (k : String) (rows : Queue) → holds q id rows ≡ true → holds q id (forget k rows) ≡ true
  unfolding forget
  forget-holds k rows h =
      update_where-holds q _ _ id _ (λ i passes t. flying.unlinks_dependency i ∙ passes)
        (update_where-holds q _ _ id rows (λ i passes t. flying.unlinks_predecessor i ∙ passes) h)

  erase-holds :
      (k : String) (rows : Queue)
      → (k == id) ≡ false
      → holds q id rows ≡ true
      → holds q id (erase k rows) ≡ true
  unfolding holds
  erase-holds k rows other h = rw (lookup-erase k id rows, other) h

  purge_rows-holds :
      (now : ℕ) (chosen : List (String × Item)) (rows : Queue)
      → AvoidsId id chosen
      → holds q id rows ≡ true
      → holds q id (purge_rows now chosen rows).1 ≡ true
  unfolding purge_rows purge_row
  purge_rows-holds now [] rows others h = h
  purge_rows-holds now ((k, i) ∷ chosen) rows others h =
      purge_rows-holds now chosen _ others.1
        (erase-holds k _ others.0 (forget-holds k _ (cancel_followers-holds now k i rows h)))

  flies-holds :
      (rows : Queue)
      → holds q id rows ≡ true
      → holds (λ i. same_state i.state inflight) id rows ≡ true
  unfolding holds
  flies-holds rows h = elim (Option-cases (lookup id rows)) [
    | inl e ↦ ground arith
    | inr (i, e) ↦ ground (arith, flying.flies i)
  ]

  purge_retained-holds :
      (now succeeded_before dead_before : ℕ) (rows : Queue)
      → HasUniqueKeys rows
      → holds q id rows ≡ true
      → holds q id (purge_retained now succeeded_before dead_before rows).1 ≡ true
  unfolding purge_retained candidates
  purge_retained-holds now succeeded_before dead_before rows u h =
      purge_rows-holds now _ rows
        (All-oldest_first (λ e. (e.0 == id) ≡ false) _
          (purgeable_named succeeded_before dead_before id rows u (flies-holds rows h)))
        h

is_held-IsInFlight : (token owner : String) (until : ℕ) → IsInFlight (is_held token owner until)
is_held-IsInFlight token owner until = record {
  flies = λ i h. ground arith;
  unlinks_predecessor = λ i. refl;
  unlinks_dependency = λ i. refl;
}

-- Purging never touches work in progress: a row that an owner holds under a lease is still held
-- under the same lease afterwards, also when the dead letter that it follows is removed.
pub purge_retained-is_held :
    (now succeeded_before dead_before until : ℕ) (id token owner : String) (rows : Queue)
    → HasUniqueKeys rows
    → holds (is_held token owner until) id rows ≡ true
    → holds (is_held token owner until) id (purge_retained now succeeded_before dead_before rows).1
      ≡ true
purge_retained-is_held now succeeded_before dead_before until id token owner rows u h =
    purge_retained-holds (is_held token owner until) (is_held-IsInFlight token owner until) id now
      succeeded_before dead_before rows u h
