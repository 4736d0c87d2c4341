-- ===== src/Desktop/Rows.antt =====
-- A table of SQLite as a dictionary from its primary key to its rows. `UPDATE … SET … WHERE …` is
-- `update_where`.
use real_time_surveillance_a.Base.{
  ℕ, String, ◌≡◌, refl, ap, inl, inr, Bool, true, false, ◌&&◌, Option, none, some, [], ◌∷◌, arith,
  if◌then◌else◌, Bool-cases, Option-cases, ◌==◌, comparable_nat, comparable_text, comparable_pair,
  count_if,
}
use real_time_surveillance_a.Dict.{Dict, lookup, insert, lookup-insert, HasUniqueKeys}

module _ {V : Type 0} where
  unfoldable pub update_where : (String → V → Bool) → (V → V) → Dict String V → Dict String V
  update_where p f [] = []
  update_where p f ((k, v) ∷ d) = (k, if p k v then f v else v) ∷ update_where p f d

  -- `cursor.rowcount` of such an update.
  unfoldable pub rowcount : (String → V → Bool) → Dict String V → ℕ
  rowcount p d = count_if (λ e. p e.0 e.1) d

  abbrev pub updated : (String → V → Bool) → (V → V) → String → Option V → Option V
  updated p f k none = none
  updated p f k (some v) = some (if p k v then f v else v)

  pub lookup-update_where :
      (p : String → V → Bool) (f : V → V) (k : String) (d : Dict String V)
      → lookup k (update_where p f d) ≡ updated p f k (lookup k d)
  unfolding lookup update_where
  lookup-update_where p f k [] = refl
  lookup-update_where p f k ((j, v) ∷ d) = elim (Bool-cases (j == k)) [
    | inl e ↦ rw (e, (comparable_text.same_iff j k).0 e) refl
    | inr e ↦ rw e (lookup-update_where p f k d)
  ]

  -- The row with that key is there and passes the test.
  abbrev pub passes : (V → Bool) → Option V → Bool
  passes p none = false
  passes p (some v) = p v

  unfoldable pub holds : (V → Bool) → String → Dict String V → Bool
  holds p k d = passes p (lookup k d)

  pub update_where-holds :
      (q : V → Bool) (p : String → V → Bool) (f : V → V) (k : String) (d : Dict String V)
      → ((v : V) → q v ≡ true → p k v ≡ true → q (f v) ≡ true)
      → holds q k d ≡ true
      → holds q k (update_where p f d) ≡ true
  unfolding holds
  update_where-holds q p f k d keep h = elim (Option-cases (lookup k d)) [
    | inl e ↦ ground (arith)
    | inr (v, e) ↦ elim (Bool-cases (p k v)) [
      | inl t ↦ rw (lookup-update_where p f k d, e, t) (keep v (ground arith) t)
      | inr t ↦ rw (lookup-update_where p f k d, e, t) (ground arith)
    ]
  ]

  -- A row that is added under another key changes nothing.
  pub insert-holds :
      (q : V → Bool) (k j : String) (v : V) (d : Dict String V)
      → lookup j d ≡ none
      → holds q k d ≡ true
      → holds q k (insert j v d) ≡ true
  unfolding holds
  insert-holds q k j v d absent h = elim (Bool-cases (j == k)) [
    | inl e ↦ ground (arith, ap (λ i. lookup i d) ((comparable_text.same_iff j k).0 e))
    | inr e ↦ rw (lookup-insert j k v d, e) h
  ]

  update_where-none :
      (p : String → V → Bool) (f : V → V) (k : String) (d : Dict String V)
      → lookup k d ≡ none
      → lookup k (update_where p f d) ≡ none
  update_where-none p f k d e = rw (lookup-update_where p f k d, e) refl

  pub update_where-HasUniqueKeys :
      (p : String → V → Bool) (f : V → V) (d : Dict String V)
      → HasUniqueKeys d
      → HasUniqueKeys (update_where p f d)
  unfolding update_where
  update_where-HasUniqueKeys p f [] h = tt
  update_where-HasUniqueKeys p f ((k, v) ∷ d) h =
      (update_where-none p f k d h.0, update_where-HasUniqueKeys p f d h.1)

  rowcount-absent :
      (p : V → Bool) (k : String) (d : Dict String V)
      → lookup k d ≡ none
      → rowcount (λ j v. j == k && p v) d ≡ 0
  unfolding rowcount lookup count_if
  rowcount-absent p k [] h = refl
  rowcount-absent p k ((j, v) ∷ d) h = elim (Bool-cases (j == k)) [
    | inl e ↦ ground arith
    | inr e ↦ ground (arith, rowcount-absent p k d)
  ]

  -- The primary key makes an update by key meet one row or none.
  pub rowcount-holds :
      (p : V → Bool) (k : String) (d : Dict String V)
      → HasUniqueKeys d
      → rowcount (λ j v. j == k && p v) d ≡ (if holds p k d then 1 else 0)
  unfolding rowcount lookup count_if holds
  rowcount-holds p k [] h = refl
  rowcount-holds p k ((j, v) ∷ d) h = elim (Bool-cases (j == k)) [
    | inl e ↦
        ground
          (arith, rowcount-absent p k d, ap (λ i. lookup i d) ((comparable_text.same_iff j k).0 e))
    | inr e ↦ ground (arith, rowcount-holds p k d h.1)
  ]

  -- An update that meets no row changes nothing.
  pub update_where-unmet :
      (p : String → V → Bool) (f : V → V) (d : Dict String V)
      → rowcount p d ≡ 0
      → update_where p f d ≡ d
  unfolding update_where rowcount count_if
  update_where-unmet p f [] h = refl
  update_where-unmet p f ((k, v) ∷ d) h = elim (Bool-cases (p k v)) [
    | inl e ↦ ground arith
    | inr e ↦ rw (e, update_where-unmet p f d (ground arith)) refl
  ]
