-- ===== src/Web/Sessions/Outbox/Attempts.antt =====
-- An error on one row of the outbox does not stop the others.
use real_time_surveillance_a.Base.{
  ℕ, ◌+◌, String, ◌≡◌, refl, Bool, Option, none, some, List, [], ◌∷◌, if◌then◌else◌, ◌==◌,
  comparable_nat, comparable_text, comparable_pair, count_if,
}
use real_time_surveillance_a.Web.Sessions.Outbox.{OutboxRow, Platform, awaiting}

-- The id of each row, and the attempts at it.
unfoldable pub attempts_of : List OutboxRow → List (ℕ × ℕ)
attempts_of [] = []
attempts_of (r ∷ rows) = (r.id, r.attempts) ∷ attempts_of rows

unfoldable pub rows_with : ℕ → List OutboxRow → ℕ
rows_with id rows = count_if (λ r. id == r.id) rows

-- As many further attempts at each row as it stands times among the chosen ones.
unfoldable pub attempted : List OutboxRow → List (ℕ × ℕ) → List (ℕ × ℕ)
unfolding rows_with
attempted chosen [] = []
attempted chosen ((id, n) ∷ rows) = (id, n + rows_with id chosen) ∷ attempted chosen rows

-- One further attempt at the rows with that id.
unfoldable once_more : ℕ → List (ℕ × ℕ) → List (ℕ × ℕ)
once_more id [] = []
once_more id ((j, n) ∷ rows) = (j, if j == id then n + 1 else n) ∷ once_more id rows

awaiting-outbox :
    (fault : Option String) (p : Platform) (rest : Option String × Platform)
    → rest.1.outbox ≡ p.outbox
    → (awaiting fault p rest).1.outbox ≡ p.outbox
unfolding awaiting
awaiting-outbox none p rest h = h
awaiting-outbox (some e) p rest h = refl

-- What a row adds to the outbox, when errors can be reported.
abbrev Attempted : OutboxRow → Platform → Option String × Bool × Platform → Type 0
Attempted row p o =
    (o.0 ≡ none) × (attempts_of o.2.outbox ≡ once_more row.id (attempts_of p.outbox))
