-- ===== src/Dict.antt =====
-- Python's `dict` and `OrderedDict`, as association lists in insertion order. Clients use the
-- laws; `insert` writes in place or appends, `insert_last` is a write and `move_to_end`.
use real_time_surveillance_a.Base.{
  ◌+◌, ◌≤◌, ◌≡◌, refl, Bool, false, Option, none, some, List, [], ◌∷◌, ◌++◌, arith, if◌then◌else◌,
  Comparable, ◌==◌, comparable_nat, comparable_text, comparable_pair, length, length-append, All,
}

abbrev pub Dict {ℓ κ} : Type ℓ → Type κ → Type (ℓ ⊔ κ)
Dict K V = List (K × V)

abbrev pub unless {κ} : {V : Type κ} → (V → Bool) → Option V → Option V
unless p none = none
unless p (some v) = if p v then none else some v

module _ {ℓ κ} {K : Type ℓ} {V : Type κ} ⦃e : Comparable K⦄ where
  unfoldable pub lookup : K → Dict K V → Option V
  lookup k [] = none
  lookup k ((j, v) ∷ d) = if j == k then some v else lookup k d

  unfoldable pub insert : K → V → Dict K V → Dict K V
  insert k v [] = (k, v) ∷ []
  insert k v ((j, w) ∷ d) = if j == k then (k, v) ∷ d else (j, w) ∷ insert k v d

  unfoldable pub erase : K → Dict K V → Dict K V
  erase k [] = []
  erase k ((j, w) ∷ d) = let rest = erase k d in if j == k then rest else (j, w) ∷ rest

  unfoldable pub insert_last : K → V → Dict K V → Dict K V
  unfolding erase
  insert_last k v d = erase k d ++ (k, v) ∷ []

  pub lookup-insert :
      (k j : K) (v : V) (d : Dict K V)
      → lookup j (insert k v d) ≡ (if k == j then some v else lookup j d)
  unfolding lookup insert
  lookup-insert k j v [] = refl
  lookup-insert k j v ((i, w) ∷ d) =
      ground (arith, e.same_iff k j, e.same_iff i k, e.same_iff i j, lookup-insert k j v d)

  pub lookup-erase :
      (k j : K) (d : Dict K V) → lookup j (erase k d) ≡ (if k == j then none else lookup j d)
  unfolding lookup erase
  lookup-erase k j [] = ground arith
  lookup-erase k j ((i, w) ∷ d) =
      ground (arith, e.same_iff k j, e.same_iff i k, e.same_iff i j, lookup-erase k j d)

  pub length-insert : (k : K) (v : V) (d : Dict K V) → length (insert k v d) ≤ length d + 1
  unfolding insert
  length-insert k v [] = omega arith
  length-insert k v ((i, w) ∷ d) = ground (arith, length-insert k v d)

  pub length-erase : (k : K) (d : Dict K V) → length (erase k d) ≤ length d
  unfolding erase
  length-erase k [] = omega arith
  length-erase k ((i, w) ∷ d) = ground (arith, length-erase k d)

  pub lookup-append :
      (j : K) (d d' : Dict K V)
      → lookup j (d ++ d') ≡ elim (lookup j d) [ none ↦ lookup j d' | some v ↦ some v ]
  unfolding lookup
  lookup-append j [] d' = refl
  lookup-append j ((i, w) ∷ d) d' = ground (arith, lookup-append j d d')

  pub lookup-insert_last :
      (k j : K) (v : V) (d : Dict K V)
      → lookup j (insert_last k v d) ≡ (if k == j then some v else lookup j d)
  unfolding insert_last lookup
  lookup-insert_last k j v d =
      ground (arith, lookup-append j (erase k d) ((k, v) ∷ []), lookup-erase k j d)

  pub length-insert_last :
      (k : K) (v : V) (d : Dict K V) → length (insert_last k v d) ≤ length d + 1
  unfolding insert_last
  length-insert_last k v d =
      omega (arith, length-append (erase k d) ((k, v) ∷ []), length-erase k d)

  -- Removes every entry that the test names, as a loop of `pop` over a set of stale keys does.
  unfoldable pub drop_if : (K → V → Bool) → Dict K V → Dict K V
  drop_if p [] = []
  drop_if p ((j, w) ∷ d) = let rest = drop_if p d in if p j w then rest else (j, w) ∷ rest

  -- No key stands twice, as in every Python dict.
  abbrev pub HasUniqueKeys : Dict K V → Type (ℓ ⊔ κ)
  HasUniqueKeys [] = Unit
  HasUniqueKeys ((k, v) ∷ d) = (lookup k d ≡ none) × HasUniqueKeys d

  pub insert-HasUniqueKeys :
      (k : K) (v : V) (d : Dict K V) → HasUniqueKeys d → HasUniqueKeys (insert k v d)
  unfolding insert lookup
  insert-HasUniqueKeys k v [] h = (refl, tt)
  insert-HasUniqueKeys k v ((i, w) ∷ d) h =
      ground (
        arith,
        e.same_iff i k,
        e.same_iff k i,
        lookup-insert k i v d,
        insert-HasUniqueKeys k v d h.1,
      )

  lookup-drop_if-none :
      (p : K → V → Bool) (j : K) (d : Dict K V) → lookup j d ≡ none → lookup j (drop_if p d) ≡ none
  unfolding drop_if lookup
  lookup-drop_if-none p j [] h = refl
  lookup-drop_if-none p j ((i, w) ∷ d) h = ground (arith, lookup-drop_if-none p j d)

  pub drop_if-HasUniqueKeys :
      (p : K → V → Bool) (d : Dict K V) → HasUniqueKeys d → HasUniqueKeys (drop_if p d)
  unfolding drop_if
  drop_if-HasUniqueKeys p [] h = tt
  drop_if-HasUniqueKeys p ((i, w) ∷ d) h =
      ground (arith, drop_if-HasUniqueKeys p d h.1, lookup-drop_if-none p i d h.0)

  pub lookup-drop_if :
      (p : K → V → Bool) (j : K) (d : Dict K V)
      → HasUniqueKeys d
      → lookup j (drop_if p d) ≡ unless (p j) (lookup j d)
  unfolding drop_if lookup
  lookup-drop_if p j [] h = refl
  lookup-drop_if p j ((i, w) ∷ d) h =
      ground (arith, e.same_iff i j, lookup-drop_if p j d h.1, lookup-drop_if-none p j d)

  pub lookup-drop_if_kept :
      (p : K → Bool) (j : K) (d : Dict K V)
      → p j ≡ false
      → lookup j (drop_if (λ k v. p k) d) ≡ lookup j d
  unfolding drop_if lookup
  lookup-drop_if_kept p j [] h = refl
  lookup-drop_if_kept p j ((i, w) ∷ d) h =
      ground (arith, e.same_iff i j, lookup-drop_if_kept p j d h)

  pub length-drop_if : (p : K → V → Bool) (d : Dict K V) → length (drop_if p d) ≤ length d
  unfolding drop_if
  length-drop_if p [] = omega arith
  length-drop_if p ((i, w) ∷ d) = ground (arith, length-drop_if p d)

  pub All-insert {μ} :
      (P : K × V → Type μ) (k : K) (v : V) (d : Dict K V)
      → P (k, v)
      → All P d
      → All P (insert k v d)
  unfolding insert
  All-insert P k v [] h a = (h, tt)
  All-insert P k v ((i, w) ∷ d) h a = ground (arith, All-insert P k v d h a.1)

  pub All-drop_if {μ} :
      (P : K × V → Type μ) (p : K → V → Bool) (d : Dict K V) → All P d → All P (drop_if p d)
  unfolding drop_if
  All-drop_if P p [] a = a
  All-drop_if P p ((i, w) ∷ d) a = ground (arith, All-drop_if P p d a.1)

  -- What is left does not pass the test.
  pub All-drop_if_test :
      (p : K → V → Bool) (d : Dict K V) → All (λ e. p e.0 e.1 ≡ false) (drop_if p d)
  unfolding drop_if
  All-drop_if_test p [] = tt
  All-drop_if_test p ((i, w) ∷ d) = ground (arith, All-drop_if_test p d)
