-- ===== src/Desktop/Queue/Claims.antt =====
-- `claim`: expired leases are taken back, and the rows that are ready are leased in order.
use Prim.Native.Nat.{Ordering}
use Prim.Native.String.{compare}
use real_time_surveillance_a.Base.{
  ℕ, zero, suc, ◌+◌, String, Bool, true, false, not, ◌&&◌, ◌||◌, Option, none, some, List, [], ◌∷◌,
  ltb, leb, if◌then◌else◌, ◌==◌, comparable_nat, comparable_text, comparable_pair, keep_if,
  contains, Result, ok, err,
}
use real_time_surveillance_a.Dict.{lookup}
use real_time_surveillance_a.Desktop.Rows.{update_where}
use real_time_surveillance_a.Desktop.Queue.{
  Item, ItemState, Queue, cancelled, inflight, is_claimed_by, is_waiting, release, retry_wait,
  same_state, succeeded,
}

abbrev is_before : Option ℕ → ℕ → Bool
is_before time now = elim time [ none ↦ false | some t ↦ ltb t now ]

-- A lease that has run out makes its row wait again.
unfoldable pub is_expired : ℕ → Item → Bool
is_expired now i = same_state i.state inflight && is_before i.lease_expires_at now

unfoldable pub requeue_expired : ℕ → Queue → Queue
unfolding is_expired
requeue_expired now q =
    update_where (λ k i. is_expired now i)
      (λ i. record (release i) { state = retry_wait; next_attempt_at = now }) q

-- `EXISTS(SELECT 1 … WHERE p.id=… AND p.state IN (…))`, or no such link.
unfoldable pub link_done : (ItemState → Bool) → Queue → Option String → Bool
link_done done q none = true
link_done done q (some id) = elim (lookup id q) [ none ↦ false | some i ↦ done i.state ]

abbrev pub is_closed : ItemState → Bool
is_closed succeeded = true
is_closed cancelled = true
is_closed _ = false

unfoldable pub is_ready : ℕ → Option String → Queue → Item → Bool
unfolding link_done
is_ready now key q i =
    is_waiting i.state
    && leb i.next_attempt_at now
    && elim key [ none ↦ true | some k ↦ k == "" || i.logical_key == k ]
    && link_done is_closed q i.predecessor_id
    && link_done (same_state succeeded) q i.depends_on_id

abbrev text_less : String → String → Bool
text_less a b = elim (compare a b) [ Ordering.lt ↦ true | _ ↦ false ]

-- `ORDER BY created_at,version,id`
unfoldable pub comes_before : String × Item → String × Item → Bool
comes_before (a, i) (b, j) =
    ltb i.created_at j.created_at
    || (i.created_at == j.created_at
        && (ltb i.version j.version || (i.version == j.version && text_less a b)))

unfoldable pub insert_sorted : String × Item → List (String × Item) → List (String × Item)
unfolding comes_before
insert_sorted x [] = x ∷ []
insert_sorted x (y ∷ ys) =
    let rest = insert_sorted x ys in if comes_before y x then y ∷ rest else x ∷ y ∷ ys

unfoldable pub sorted : List (String × Item) → List (String × Item)
unfolding insert_sorted
sorted [] = []
sorted (x ∷ xs) = insert_sorted x (sorted xs)

unfoldable pub take_ids : ℕ → List (String × Item) → List String
take_ids zero xs = []
take_ids (suc n) [] = []
take_ids (suc n) ((id, i) ∷ xs) = id ∷ take_ids n xs

unfoldable pub ready_ids : ℕ → ℕ → Option String → Queue → List String
unfolding is_ready sorted take_ids
ready_ids now limit key q = take_ids limit (sorted (keep_if (λ e. is_ready now key q e.1) q))

unfoldable pub lease : String → String → ℕ → ℕ → Item → Item
lease token owner now expires i = record i {
  state = inflight;
  claim_token = some token;
  lease_owner = some owner;
  lease_expires_at = some expires;
  last_attempt_at = some now;
  attempt_count = i.attempt_count + 1;
}

pub data ClaimError : Type 0 where
  claim_invalid : ClaimError

-- `claim`, where the last argument but the queue is the key asked for.
unfoldable pub claim_rows : String → String → ℕ → ℕ → ℕ → Option String → Queue → Queue
unfolding requeue_expired ready_ids lease
claim_rows token owner now lease_seconds limit key q =
    let q' = requeue_expired now q in
    let ids = ready_ids now limit key q' in
    update_where (λ k i. contains k ids && is_waiting i.state)
      (lease token owner now (now + lease_seconds)) q'

unfoldable pub claim :
    String
    → String
    → ℕ
    → ℕ
    → ℕ
    → Option String
    → Queue
    → Result ClaimError (List (String × Item) × Queue)
unfolding claim_rows sorted ready_ids requeue_expired
claim token owner now lease_seconds limit key q =
    if owner == "" || not (leb 1 limit && leb limit 500)
    then err claim_invalid
    else (let ids = ready_ids now limit key (requeue_expired now q) in
        let q' = claim_rows token owner now lease_seconds limit key q in
        let claimed = sorted (keep_if (λ e. is_claimed_by token owner e.1) q') in
        ok (elim ids [ [] ↦ [] | id ∷ rest ↦ claimed ], q'))
