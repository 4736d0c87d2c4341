-- ===== src/Desktop/Queue/Purge.antt =====
-- `purge_retained`. The recursive query for the rows that follow a dead letter runs as many rounds
-- as the table has rows: a round that adds no row ends it, and every other adds one at least.
pub mod Held
use real_time_surveillance_a.Base.{
  ℕ, zero, suc, ◌+◌, ◌-◌, ◌*◌, ◌/◌, ◌%◌, ◌≤◌, ◌<◌, min, max, String, ◌≡◌, refl, sym, ap, ◌∙◌, subst,
  ◌≢◌, ◌↔◌, ◌⊎◌, inl, inr, Bool, true, false, not, ◌&&◌, ◌||◌, Option, none, some, List, [], ◌∷◌,
  ◌++◌, map, arith, ltb, leb, if◌then◌else◌, Bool-cases, if_elim, Option-cases, is_some, Comparable,
  ◌==◌, ==_refl, comparable_nat, comparable_text, comparable_pair, length, length-append, last?,
  last?-snoc, keep_last, length-keep_last, keep_last-short, keep_last-snoc, keep_last-append, All,
  All-append, All-keep_last, All-map, keep_if, any_of, count_if, contains, Result, ok, err, ◌>>=◌,
  ◌>>◌, raise_if, is_ok, Result-cases, Ensures, Ensures-bind, ℤ, pos, negsuc, is_negative,
}
use Prim.Native.Nat.{Ordering}
use Prim.Native.String.{compare}
use real_time_surveillance_a.Dict.{Dict, lookup, erase}
use real_time_surveillance_a.Desktop.Rows.{update_where, rowcount}
use real_time_surveillance_a.Desktop.Queue.{
  Item, ItemState, Queue, inflight, succeeded, dead_letter, cancelled, same_state, release,
}

abbrev is_older : Option ℕ → ℕ → Bool
is_older time limit = elim time [ none ↦ false | some t ↦ ltb t limit ]

unfoldable pub is_purgeable : ℕ → ℕ → Item → Bool
is_purgeable succeeded_before dead_before i =
    ((same_state i.state succeeded || same_state i.state cancelled)
      && is_older i.completed_at succeeded_before)
    || (same_state i.state dead_letter && is_older i.failed_at dead_before)

-- `ORDER BY created_at,id`
unfoldable pub is_created_before : String × Item → String × Item → Bool
is_created_before (a, i) (b, j) =
    ltb i.created_at j.created_at
    || (i.created_at == j.created_at && elim (compare a b) [ Ordering.lt ↦ true | _ ↦ false ])

unfoldable pub insert_oldest : String × Item → List (String × Item) → List (String × Item)
unfolding is_created_before
insert_oldest x [] = x ∷ []
insert_oldest x (y ∷ ys) =
    let rest = insert_oldest x ys in if is_created_before y x then y ∷ rest else x ∷ y ∷ ys

unfoldable pub oldest_first : List (String × Item) → List (String × Item)
unfolding insert_oldest
oldest_first [] = []
oldest_first (x ∷ xs) = insert_oldest x (oldest_first xs)

unfoldable pub candidates : ℕ → ℕ → Queue → List (String × Item)
unfolding is_purgeable oldest_first
candidates succeeded_before dead_before q =
    oldest_first (keep_if (λ e. is_purgeable succeeded_before dead_before e.1) q)

abbrev pub links_into : List String → Option String → Bool
links_into ids link = elim link [ none ↦ false | some id ↦ contains id ids ]

unfoldable pub followers : List String → Queue → List String
followers ids q =
    map (λ e. e.0)
      (keep_if (λ e. links_into ids e.1.predecessor_id || links_into ids e.1.depends_on_id) q)

unfoldable pub descendants : ℕ → List String → Queue → List String
unfolding followers
descendants zero ids q = ids
descendants (suc rounds) ids q =
    let more = keep_if (λ id. not (contains id ids)) (followers ids q) in
    descendants rounds (ids ++ more) q

-- `state='cancelled',completed_at=?,claim_token=NULL,…`
unfoldable pub cancel : ℕ → Item → Item
cancel now i = record (release i) { state = cancelled; completed_at = some now }

unfoldable pub cancel_followers : ℕ → String → Item → Queue → Queue
unfolding descendants cancel
cancel_followers now id i q =
    if same_state i.state dead_letter
    then (let below = descendants (length q) (followers (id ∷ []) q) q in
        update_where (λ k j. contains k below && not (same_state j.state inflight)) (cancel now) q)
    else if same_state i.state cancelled
    then update_where
        (λ k j. links_into (id ∷ []) j.depends_on_id && not (same_state j.state inflight))
        (cancel now) q
    else q

unfoldable pub forget : String → Queue → Queue
forget id q =
    let q' =
      update_where (λ k j. links_into (id ∷ []) j.predecessor_id)
        (λ j. record j { predecessor_id = none }) q in
    update_where (λ k j. links_into (id ∷ []) j.depends_on_id)
      (λ j. record j { depends_on_id = none }) q'

-- One round of the loop over the candidates, and how many rows it deleted.
unfoldable pub purge_row : ℕ → String × Item → Queue → ℕ × Queue
unfolding cancel_followers forget
purge_row now (id, i) q =
    let q' = forget id (cancel_followers now id i q) in (rowcount (λ k j. k == id) q', erase id q')

unfoldable pub purge_rows : ℕ → List (String × Item) → Queue → ℕ × Queue
unfolding purge_row
purge_rows now [] q = (0, q)
purge_rows now (e ∷ rest) q =
    let (removed, q') = purge_row now e q in
    let (more, q'') = purge_rows now rest q' in (removed + more, q'')

unfoldable pub purge_retained : ℕ → ℕ → ℕ → Queue → ℕ × Queue
unfolding candidates purge_rows
purge_retained now succeeded_before dead_before q =
    purge_rows now (candidates succeeded_before dead_before q) q
