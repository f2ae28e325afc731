-- ===== src/Record/Iterate.antt =====
-- internal/record/batch.go (Iterate).
pub mod Walks
pub mod Ends
use mq.Common.{
  ℕ, zero, suc, ◌+◌, Bool, true, false, Option, List, [], ◌∷◌, Bytes, length, take, drop, ltb,
  is_neg64, if◌then◌else◌, Result, ok, err,
}
use mq.Record.Batch.{HeaderError, too_short, BatchHeader, parse_header, total_size}

-- What the callback does with a batch: it returns nil, returns an error, or panics.
pub data Answer (S E : Type 0) : Type 0 where
  go_on : S → Answer S E
  stop : S → E → Answer S E
  crash : Answer S E

pub data IterateError (E : Type 0) : Type 0 where
  header : HeaderError → IterateError E
  callback : E → IterateError E

-- How a walk ends, with the bytes consumed and the state that the callback left.
pub data Walk (S E : Type 0) : Type 0 where
  done : ℕ → S → Walk S E
  failed : ℕ → IterateError E → S → Walk S E
  panicked : Walk S E
  unfinished : Walk S E

-- The callback's answer decides whether the walk goes on.
abbrev pub after : {S E : Type 0} → ℕ → Answer S E → (S → Walk S E) → Walk S E
after consumed (go_on s) next = next s
after consumed (stop s e) next = failed consumed (callback e) s
after consumed crash next = panicked

module _ {S E : Type 0} (fn : Bytes → S → Answer S E) where
  -- One round with the header parsed; `next` goes on at an offset. A negative size passes the
  -- test for a truncated batch, and the slice expression panics.
  visit : Bytes → ℕ → BatchHeader → S → (ℕ → S → Walk S E) → Walk S E
  visit set consumed h s next =
      if is_neg64 (total_size h)
      then panicked
      else if ltb (length set) (consumed + total_size h)
      then failed consumed (header too_short) s
      else after consumed (fn (take (total_size h) (drop consumed set)) s)
          (next (consumed + total_size h))

  round : Bytes → ℕ → Result HeaderError BatchHeader → S → (ℕ → S → Walk S E) → Walk S E
  round set consumed (err e) s next = failed consumed (header e) s
  round set consumed (ok h) s next = visit set consumed h s next

  unfoldable pub iterate_loop : ℕ → Bytes → ℕ → S → Walk S E
  unfolding round visit
  iterate_loop zero set consumed s = unfinished
  iterate_loop (suc fuel) set consumed s =
      let more = round set consumed (parse_header (drop consumed set)) s (iterate_loop fuel set) in
      if ltb consumed (length set) then more else done consumed s

  -- A round that goes on takes a byte at least, unless a batch states the size 0.
  unfoldable pub iterate : Bytes → S → Walk S E
  iterate set s = iterate_loop (suc (length set)) set 0 s
