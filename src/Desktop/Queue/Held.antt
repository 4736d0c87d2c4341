-- ===== src/Desktop/Queue/Held.antt =====
-- A row in the hands of an owner.
use real_time_surveillance_a.Base.{
  ℕ, String, Bool, false, ◌&&◌, none, some, leb, comparable_nat, comparable_text, comparable_pair,
}
use real_time_surveillance_a.Desktop.Queue.{Item, inflight, same_state, is_claimed_by}

-- Handed out under that token to that owner, until that time at least.
abbrev pub is_held : String → String → ℕ → Item → Bool
is_held token owner until i =
    same_state i.state inflight
    && is_claimed_by token owner i
    && elim i.lease_expires_at [ none ↦ false | some t ↦ leb until t ]
