-- ===== src/Base/Lists.antt =====
-- Lists over the native numbers, and bounded queues.
use Prim.Native.Nat.{ℕ, suc, ◌+◌, ◌≤◌, ◌<◌}
use mathlib.Core.Path.{◌≡◌, refl}
use mathlib.Core.Bool.{Bool, false, ◌||◌}
use mathlib.Core.Option.{Option, none, some}
use mathlib.Core.List.{List, [], ◌∷◌, ◌++◌}
use native.Mathlib.Omega.{arith}
use real_time_surveillance_a.Base.Tests.{ltb, Comparable, ◌==◌, if◌then◌else◌}

module _ {ℓ} {A : Type ℓ} where
  abbrev pub length : List A → ℕ
  length [] = 0
  length (x ∷ xs) = suc (length xs)

  pub length-append : (xs ys : List A) → length (xs ++ ys) ≡ length xs + length ys
  length-append [] ys = omega arith
  length-append (x ∷ xs) ys = omega (arith, length-append xs ys)

  abbrev pub last? : List A → Option A
  last? [] = none
  last? (x ∷ []) = some x
  last? (x ∷ y ∷ xs) = last? (y ∷ xs)

  pub last?-snoc : (xs : List A) (a : A) → last? (xs ++ a ∷ []) ≡ some a
  last?-snoc [] a = refl
  last?-snoc (x ∷ []) a = refl
  last?-snoc (x ∷ y ∷ xs) a = last?-snoc (y ∷ xs) a

  -- Drops from the front until at most `n` are left: `deque(maxlen=n)`, and
  -- `while len(d) > n: d.popitem(last=False)`.
  unfoldable pub keep_last : ℕ → List A → List A
  keep_last n [] = []
  keep_last n (x ∷ xs) = if ltb n (length (x ∷ xs)) then keep_last n xs else x ∷ xs

  pub length-keep_last : (n : ℕ) (xs : List A) → length (keep_last n xs) ≤ n
  unfolding keep_last
  length-keep_last n [] = omega arith
  length-keep_last n (x ∷ xs) = ground (arith, length-keep_last n xs)

  pub keep_last-short : (n : ℕ) (xs : List A) → length xs ≤ n → keep_last n xs ≡ xs
  unfolding keep_last
  keep_last-short n [] h = refl
  keep_last-short n (x ∷ xs) h = ground arith

  pub keep_last-snoc :
      (n : ℕ) (xs : List A) (a : A) → 0 < n → last? (keep_last n (xs ++ a ∷ [])) ≡ some a
  unfolding keep_last
  keep_last-snoc n [] a h = ground arith
  keep_last-snoc n (x ∷ xs) a h = ground (arith, keep_last-snoc n xs a h, last?-snoc (x ∷ xs) a)

  -- Trimming after each append is trimming at the end.
  pub keep_last-append :
      (n : ℕ) (xs ys : List A) → keep_last n (keep_last n xs ++ ys) ≡ keep_last n (xs ++ ys)
  unfolding keep_last
  keep_last-append n [] ys = refl
  keep_last-append n (x ∷ xs) ys = ground (arith, keep_last-append n xs ys, length-append xs ys)

  abbrev pub All {κ} : (A → Type κ) → List A → Type κ
  All P [] = Unit
  All P (x ∷ xs) = P x × All P xs

  pub All-append {κ} : (P : A → Type κ) (xs ys : List A) → All P xs → All P ys → All P (xs ++ ys)
  All-append P [] ys h k = k
  All-append P (x ∷ xs) ys h k = (h.0, All-append P xs ys h.1 k)

  pub All-keep_last {κ} : (P : A → Type κ) (n : ℕ) (xs : List A) → All P xs → All P (keep_last n xs)
  unfolding keep_last
  All-keep_last P n [] h = h
  All-keep_last P n (x ∷ xs) h = ground (arith, All-keep_last P n xs h.1)

  pub All-map {κ μ} :
      (P : A → Type κ) (Q : A → Type μ) (xs : List A) → ((a : A) → P a → Q a) → All P xs → All Q xs
  All-map P Q [] f h = tt
  All-map P Q (x ∷ xs) f h = (f x h.0, All-map P Q xs f h.1)

  -- `[x for x in xs if p(x)]`
  unfoldable pub keep_if : (A → Bool) → List A → List A
  keep_if p [] = []
  keep_if p (x ∷ xs) = let rest = keep_if p xs in if p x then x ∷ rest else rest

  unfoldable pub any_of : (A → Bool) → List A → Bool
  any_of p [] = false
  any_of p (x ∷ xs) = p x || any_of p xs

  unfoldable pub count_if : (A → Bool) → List A → ℕ
  count_if p [] = 0
  count_if p (x ∷ xs) = if p x then suc (count_if p xs) else count_if p xs

  unfoldable pub contains : ⦃e : Comparable A⦄ → A → List A → Bool
  contains a [] = false
  contains a (x ∷ xs) = a == x || contains a xs
