-- ===== src/Streaming/Buffer/Waiting.antt =====
-- What a waiting consumer of the frame buffer gets.
use real_time_surveillance_a.Base.{
  ℕ, ◌≤◌, ◌<◌, ◌≡◌, refl, ◌⊎◌, true, Option, none, some, List, [], ◌∷◌, arith, comparable_nat,
  comparable_text, comparable_pair, last?, ok, pos,
}
use real_time_surveillance_a.Streaming.Buffer.{
  FrameBuffer, Call, wait_for, after_wait, newer_than, await_newer, wait_for_frame_with_sequence,
  is_empty,
}
use real_time_surveillance_a.Streaming.Buffer.Numbering.{EndsAt, IsValid, run-IsValid}

module _ {A : Type 0} where
  EndsAt-last :
      (n : ℕ) (xs : List (ℕ × A)) (s : ℕ) (frame : A)
      → EndsAt n xs
      → last? xs ≡ some (s, frame)
      → s ≡ n
  EndsAt-last n [] s frame h e = ground arith
  EndsAt-last n (x ∷ []) s frame h e = ground arith
  EndsAt-last n (x ∷ y ∷ xs) s frame h e = EndsAt-last n (y ∷ xs) s frame h.1 e

  last?-none : (xs : List (ℕ × A)) → last? xs ≡ none → xs ≡ []
  last?-none [] h = refl
  last?-none (x ∷ []) h = cc
  last?-none (x ∷ y ∷ xs) h = cc (last?-none (y ∷ xs) h)

  after_wait-IsValid :
      (b : FrameBuffer A) (target : ℕ) (others : List (Call A))
      → IsValid b
      → IsValid (after_wait b target others)
  unfolding after_wait wait_for
  after_wait-IsValid b target others v = ground (arith, run-IsValid b others v)

  -- What a consumer that has seen number `after` is handed out of the buffer `b`.
  abbrev pub Handed : ℕ → FrameBuffer A → Option (ℕ × A) → Type 0
  Handed after b none = (b.frames ≡ []) ⊎ (b.sequence ≤ after)
  Handed after b (some (s, frame)) =
      (after < s) × (s ≡ b.sequence) × (last? b.frames ≡ some (s, frame))

  is_empty-eq-nil : (xs : List (ℕ × A)) → is_empty xs ≡ true → xs ≡ []
  is_empty-eq-nil [] h = refl
  is_empty-eq-nil (x ∷ xs) h = cc

  newer_than-Handed :
      (b : FrameBuffer A) (after : ℕ) (r : Option (ℕ × A))
      → IsValid b
      → newer_than b after ≡ r
      → Handed after b r
  unfolding newer_than
  newer_than-Handed b after none v e = grind (arith, last?-none b.frames, is_empty-eq-nil b.frames)
  newer_than-Handed b after (some (s, frame)) v e =
      ground (arith, EndsAt-last b.sequence b.frames s frame v.numbered)

  -- A wait for a frame after number `after` returns for every timeout that is not negative, and
  -- whatever other threads do meanwhile; the buffer stays valid. A frame is returned only if its
  -- number is above `after`, and it is the newest one; nothing is returned only if the buffer is
  -- then empty or has given out no number above `after`.
  pub wait_for_frame_with_sequence-Handed :
      (b : FrameBuffer A) (timeout after : ℕ) (others : List (Call A))
      → IsValid b
      → (r : Option (ℕ × A)) × (b' : FrameBuffer A) × (wait_for_frame_with_sequence b
            (pos timeout)
            (some after)
            others
          ≡ ok (r, b'))
        × IsValid b'
        × Handed after b' r
  unfolding wait_for_frame_with_sequence await_newer
  wait_for_frame_with_sequence-Handed b timeout after others v =
      let b' = after_wait b after others in
      (
        newer_than b' after,
        b',
        refl,
        after_wait-IsValid b after others v,
        newer_than-Handed b' after (newer_than b' after) (after_wait-IsValid b after others v) refl,
      )
