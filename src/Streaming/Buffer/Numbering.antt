-- ===== src/Streaming/Buffer/Numbering.antt =====
-- The invariant of the buffer, and the history that it stands for.
use real_time_surveillance_a.Base.{
  ℕ, suc, ◌+◌, ◌≤◌, ◌<◌, ◌≡◌, refl, List, [], ◌∷◌, ◌++◌, arith, comparable_nat, comparable_text,
  comparable_pair, length, length-append, keep_last, length-keep_last, keep_last-append, ok,
}
use real_time_surveillance_a.Streaming.Buffer.{
  FrameBuffer, Call, puts, clears, make, append_frame, perform, run,
}

module _ {A : Type 0} where
  -- The frames carry consecutive numbers, up to `n`.
  abbrev pub EndsAt : ℕ → List (ℕ × A) → Type 0
  EndsAt n [] = Unit
  EndsAt n ((s, frame) ∷ rest) = (s + length rest ≡ n) × EndsAt n rest

  pub record IsValid (b : FrameBuffer A) : Type 0 where
    pub positive : 0 < b.maxsize
    pub bounded : length b.frames ≤ b.maxsize
    pub numbered : EndsAt b.sequence b.frames

  EndsAt-snoc :
      (n : ℕ) (xs : List (ℕ × A)) (frame : A)
      → EndsAt n xs
      → EndsAt (suc n) (xs ++ (suc n, frame) ∷ [])
  EndsAt-snoc n [] frame h = (omega arith, tt)
  EndsAt-snoc n (x ∷ xs) frame h =
      (omega (arith, length-append xs ((suc n, frame) ∷ []), h.0), EndsAt-snoc n xs frame h.1)

  EndsAt-keep_last : (n m : ℕ) (xs : List (ℕ × A)) → EndsAt n xs → EndsAt n (keep_last m xs)
  unfolding keep_last
  EndsAt-keep_last n m [] h = tt
  EndsAt-keep_last n m (x ∷ xs) h = ground (arith, EndsAt-keep_last n m xs h.1)

  append_frame-IsValid :
      (b : FrameBuffer A) (frame : A) → IsValid b → IsValid (append_frame b frame)
  unfolding append_frame
  append_frame-IsValid b frame v = record {
    positive = v.positive;
    bounded = length-keep_last b.maxsize _;
    numbered =
        EndsAt-keep_last (suc b.sequence) b.maxsize _
          (EndsAt-snoc b.sequence b.frames frame v.numbered);
  }

  -- Whatever calls other threads make, the buffer keeps at most `maxsize` frames, under
  -- consecutive numbers that end at the latest one given out.
  pub run-IsValid : (b : FrameBuffer A) (calls : List (Call A)) → IsValid b → IsValid (run b calls)
  unfolding run
  run-IsValid b [] v = v
  run-IsValid b (puts frame ∷ calls) v =
      run-IsValid (perform b (puts frame)) calls (unfold perform in append_frame-IsValid b frame v)
  run-IsValid b (clears ∷ calls) v =
      run-IsValid (perform b clears) calls
        (unfold perform in record { positive = v.positive; bounded = omega arith; numbered = tt })

  -- `make` refuses exactly the size zero, and otherwise gives a valid, empty buffer.
  pub make-IsValid :
      (n : ℕ) → (b : FrameBuffer A) → make n ≡ ok b → IsValid b × (b.frames ≡ []) × (b.maxsize ≡ n)
  unfolding make
  make-IsValid n b h = ground arith

  -- Every frame that was put since the last clear, numbered from `n`.
  abbrev pub history : ℕ → List (ℕ × A) → List (Call A) → List (ℕ × A)
  history n past [] = past
  history n past (puts frame ∷ calls) = history (suc n) (past ++ (suc n, frame) ∷ []) calls
  history n past (clears ∷ calls) = history n [] calls

  run-eq-history :
      (b : FrameBuffer A) (past : List (ℕ × A)) (calls : List (Call A))
      → b.frames ≡ keep_last b.maxsize past
      → (run b calls).frames ≡ keep_last b.maxsize (history b.sequence past calls)
  unfolding run
  run-eq-history b past [] h = h
  run-eq-history b past (puts frame ∷ calls) h =
      run-eq-history (perform b (puts frame)) (past ++ (suc b.sequence, frame) ∷ []) calls
        (unfold perform in rw h (keep_last-append b.maxsize past _))
  run-eq-history b past (clears ∷ calls) h =
      run-eq-history (perform b clears) [] calls (unfold perform keep_last in refl)

  -- The buffer implements the unbounded history: after any calls on an empty buffer it holds the
  -- last `maxsize` frames put since the last clear, in order, under the numbers given out.
  pub frames-run :
      (b : FrameBuffer A) (calls : List (Call A))
      → b.frames ≡ []
      → (run b calls).frames ≡ keep_last b.maxsize (history b.sequence [] calls)
  frames-run b calls h = run-eq-history b [] calls (rw h (unfold keep_last in refl))
