-- ===== src/Streaming/Buffer.antt =====
-- packages/cv-engine/cv_engine/streaming/buffer.py: the frame buffer that a capture thread fills
-- and that consumers read. Each method holds the condition's lock, so it is one atomic function.
-- A frame is any value; `is_frame` is numpy's test that it is a non-empty array.
pub mod Numbering
pub mod Waiting
mod Tests
use real_time_surveillance_a.Base.{
  ℕ, zero, suc, ◌+◌, ◌-◌, ◌*◌, ◌/◌, ◌%◌, ◌≤◌, ◌<◌, min, max, String, ◌≡◌, refl, sym, ap, ◌∙◌, subst,
  ◌≢◌, ◌↔◌, ◌⊎◌, inl, inr, Bool, true, false, not, ◌&&◌, ◌||◌, Option, none, some, List, [], ◌∷◌,
  ◌++◌, map, arith, ltb, leb, if◌then◌else◌, Bool-cases, Option-cases, is_some, Comparable, ◌==◌,
  ==_refl, comparable_nat, comparable_text, comparable_pair, length, length-append, last?,
  last?-snoc, keep_last, length-keep_last, keep_last-short, keep_last-snoc, keep_last-append, All,
  All-append, All-keep_last, All-map, keep_if, any_of, count_if, contains, Result, ok, err, ◌>>=◌,
  ◌>>◌, raise_if, is_ok, Result-cases, ℤ, pos, negsuc, is_negative,
}

pub data BufferError : Type 0 where
  maxsize_not_positive frame_empty timeout_negative : BufferError

pub record FrameBuffer (A : Type 0) : Type 0 where
  pub maxsize : ℕ
  pub frames : List (ℕ × A)
  pub sequence : ℕ

-- What other threads do while a consumer waits, each under the lock.
pub data Call (A : Type 0) : Type 0 where
  puts : A → Call A
  clears : Call A

module _ {A : Type 0} where
  pub make : ℕ → Result BufferError (FrameBuffer A)
  make maxsize = do
    raise_if (ltb maxsize 1) maxsize_not_positive
    ok (record { maxsize = maxsize; frames = []; sequence = 0 })

  -- The deque has `maxlen=maxsize`: an append to a full one drops the oldest frame.
  unfoldable pub append_frame : FrameBuffer A → A → FrameBuffer A
  append_frame b frame = record b {
    frames = keep_last b.maxsize (b.frames ++ (suc b.sequence, frame) ∷ []);
    sequence = suc b.sequence;
  }

  unfoldable pub put : (A → Bool) → FrameBuffer A → A → Result BufferError (ℕ × FrameBuffer A)
  unfolding append_frame
  put is_frame b frame = do
    raise_if (not (is_frame frame)) frame_empty
    ok (suc b.sequence, append_frame b frame)

  pub get_latest_with_sequence : FrameBuffer A → Option (ℕ × A)
  get_latest_with_sequence b = last? b.frames

  pub get_latest : FrameBuffer A → Option A
  get_latest b = elim (last? b.frames) [ none ↦ none | some (s, frame) ↦ some frame ]

  unfoldable pub clear : FrameBuffer A → FrameBuffer A
  clear b = record b { frames = [] }

  pub size : FrameBuffer A → ℕ
  size b = length b.frames

  pub perform : FrameBuffer A → Call A → FrameBuffer A
  unfolding append_frame clear
  perform b (puts frame) = append_frame b frame
  perform b clears = clear b

  pub run : FrameBuffer A → List (Call A) → FrameBuffer A
  unfolding perform
  run b [] = b
  run b (c ∷ cs) = run (perform b c) cs

  abbrev pub is_empty : List (ℕ × A) → Bool
  is_empty [] = true
  is_empty (x ∷ xs) = false

  -- `Condition.wait_for`: it returns at once if there is something newer, and otherwise after the
  -- calls that other threads make until it is woken or times out.
  pub wait_for : FrameBuffer A → ℕ → List (Call A) → FrameBuffer A
  unfolding run
  wait_for b target others = if ltb target b.sequence then b else run b others

  newer_than : FrameBuffer A → ℕ → Option (ℕ × A)
  newer_than b target = if is_empty b.frames || leb b.sequence target then none else last? b.frames

  after_wait : FrameBuffer A → ℕ → List (Call A) → FrameBuffer A
  unfolding wait_for
  after_wait b target others =
      if is_empty b.frames || leb b.sequence target then wait_for b target others else b

  await_newer : FrameBuffer A → ℕ → List (Call A) → Option (ℕ × A) × FrameBuffer A
  await_newer b target others = let b' = after_wait b target others in (newer_than b' target, b')

  pub wait_for_frame_with_sequence :
      FrameBuffer A
      → ℤ
      → Option ℕ
      → List (Call A)
      → Result BufferError (Option (ℕ × A) × FrameBuffer A)
  unfolding await_newer
  wait_for_frame_with_sequence b timeout none others = do
    raise_if (is_negative timeout) timeout_negative
    ok (if is_empty b.frames then await_newer b b.sequence others else (last? b.frames, b))
  wait_for_frame_with_sequence b timeout (some after) others = do
    raise_if (is_negative timeout) timeout_negative
    ok (await_newer b after others)
