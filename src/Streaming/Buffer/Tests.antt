-- ===== src/Streaming/Buffer/Tests.antt =====
-- A buffer of two frames; frames are numbers.
use real_time_surveillance_a.Base.{
  ℕ, ◌≡◌, refl, Option, some, List, [], ◌∷◌, arith, comparable_nat, comparable_text,
  comparable_pair, keep_last, ok, pos,
}
use real_time_surveillance_a.Streaming.Buffer.{
  FrameBuffer, Call, puts, clears, make, run, wait_for_frame_with_sequence,
}
use real_time_surveillance_a.Streaming.Buffer.Numbering.{
  IsValid, run-IsValid, make-IsValid, history, frames-run,
}
use real_time_surveillance_a.Streaming.Buffer.Waiting.{Handed, wait_for_frame_with_sequence-Handed}

abbrev fresh : FrameBuffer ℕ
fresh = record { maxsize = 2; frames = []; sequence = 0 }

abbrev calls : List (Call ℕ)
calls = puts 40 ∷ clears ∷ puts 41 ∷ puts 42 ∷ puts 43 ∷ []

run_keeps_two : (run fresh calls).frames ≡ (3, 42) ∷ (4, 43) ∷ []
unfolding run keep_last
run_keeps_two = refl

fresh-IsValid : IsValid fresh
fresh-IsValid = record { positive = omega arith; bounded = omega arith; numbered = tt }

make_two : IsValid fresh × (fresh.frames ≡ []) × (fresh.maxsize ≡ 2)
unfolding make
make_two = make-IsValid 2 fresh refl

run-IsValid_example : IsValid (run fresh calls)
run-IsValid_example = run-IsValid fresh calls fresh-IsValid

frames-run_example : (run fresh calls).frames ≡ keep_last 2 (history 0 [] calls)
frames-run_example = frames-run fresh calls refl

wait_for_frame_with_sequence-Handed_example :
    (r : Option (ℕ × ℕ)) × (b' : FrameBuffer ℕ) × (wait_for_frame_with_sequence fresh
        (pos 250)
        (some 3)
        calls
      ≡ ok (r, b'))
    × IsValid b'
    × Handed 3 b' r
wait_for_frame_with_sequence-Handed_example =
    wait_for_frame_with_sequence-Handed fresh 250 3 calls fresh-IsValid
