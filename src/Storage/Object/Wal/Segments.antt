-- ===== src/Storage/Object/Wal/Segments.antt =====
-- internal/storage/object/wal.go: a replay comes to an end, and goes through all segments.
use mq.Common.{
  ℕ, zero, suc, ◌+◌, ◌<◌, ◌≤◌, ◌≡◌, ◌≢◌, refl, sym, ap, ◌∙◌, Option, some, List, [], ◌∷◌, ◌++◌, map,
  Bytes, arith, length, take, drop, get_or, flatten, All, length-drop, be32, ltb, ◌==◌, Result, ok,
  err, Bool-cases, inl, inr,
}
use mathlib.Core.Path.{fun_ext}
use mq.Record.Batch.{checksum}
use mq.Storage.Object.Wal.{
  WalRecord, WalError, wal_magic, decode_wal_payload, frame, Replay, replayed, failed, unfinished,
  and_then, called, replay_record, replay_round, replay_loop, replay_segment, replay_segments,
}
use mq.Storage.Object.Wal.Frames.{Fits}
use mq.Storage.Object.Wal.Replays.{IsCut, visit_records, replay_segment-records}

module _ {S E : Type 0} where
  and_then-ends :
      (r : Replay S E) (next : S → Replay S E)
      → r ≢ unfinished
      → ((s : S) → next s ≢ unfinished)
      → and_then r next ≢ unfinished
  and_then-ends (replayed s) next h n = n s
  and_then-ends (failed e) next h n = λ q. cc
  and_then-ends unfinished next h n = absurd (h refl)

  called-ends : (r : Result E S) → called r ≢ unfinished
  called-ends (ok s) = λ q. cc
  called-ends (err e) = λ q. cc

  replayed-ends : (s : S) → ◌≢◌ {A = Replay S E} (replayed s) unfinished
  replayed-ends s = λ q. cc

  and_then_assoc :
      (r : Replay S E) (f g : S → Replay S E)
      → and_then (and_then r f) g ≡ and_then r (λ s. and_then (f s) g)
  and_then_assoc (replayed s) f g = refl
  and_then_assoc (failed e) f g = refl
  and_then_assoc unfinished f g = refl

-- The segment files of the log hold these records, each behind whole frames cut by a crash or not.
pub data Logged : List (ℕ × Bytes) → List WalRecord → Type 0 where
  no_segments : Logged [] []
  segment :
      {seq : ℕ} {bytes : Bytes} {segs : List (ℕ × Bytes)} {recs all : List WalRecord}
      (here : List WalRecord) (tail : Bytes)
      → All Fits here
      → IsCut tail
      → bytes ≡ flatten (map frame here) ++ tail
      → all ≡ here ++ recs
      → Logged segs recs
      → Logged ((seq, bytes) ∷ segs) all

-- Every file is read.
abbrev pub readable : List (ℕ × Bytes) → List (ℕ × Option Bytes)
readable [] = []
readable ((seq, b) ∷ segs) = (seq, some b) ∷ readable segs

module _ {S E : Type 0} (fn : WalRecord → S → Result E S) where
  record-ends : (r : Result WalError WalRecord) (s : S) → replay_record fn r s ≢ unfinished
  record-ends (err e) s = λ q. cc
  record-ends (ok rec) s = called-ends (fn rec s)

  round-ends :
      (rest : Bytes) (s : S) (next : Bytes → S → Replay S E)
      → ((n : ℕ) (s' : S) → 9 ≤ n → 9 ≤ length rest → next (drop n rest) s' ≢ unfinished)
      → replay_round fn rest s next ≢ unfinished
  unfolding replay_round
  round-ends rest s next h q =
      let n = be32 (drop 5 rest) in
      let body = take n (drop 9 rest) in
      elim (Bool-cases (get_or rest 0 0 == wal_magic)) [
        | inr e ↦ replayed-ends s (rw e at q)
        | inl e ↦ elim (Bool-cases (ltb (length rest) 9)) [
          | inl f ↦ replayed-ends s (rw (e, f) at q)
          | inr f ↦ elim (Bool-cases (ltb (length rest) (9 + n))) [
            | inl g ↦ replayed-ends s (rw (e, f, g) at q)
            | inr g ↦ elim (Bool-cases (checksum body == be32 (drop 1 rest))) [
              | inr c ↦ replayed-ends s (rw (e, f, g, c) at q)
              | inl c ↦
                  and_then-ends (replay_record fn (decode_wal_payload body) s)
                    (next (drop (9 + n) rest)) (record-ends (decode_wal_payload body) s)
                    (λ s'. h (9 + n) s' (omega arith) (ground arith)) (rw (e, f, g, c) at q)
            ]
          ]
        ]
      ]

  replay_loop-ends :
      (fuel : ℕ) (rest : Bytes) (s : S)
      → length rest < fuel
      → replay_loop fn fuel rest s ≢ unfinished
  unfolding replay_loop
  replay_loop-ends zero rest s h q = elim h [ ]
  replay_loop-ends (suc fuel) rest s h q = elim (Bool-cases (ltb 0 (length rest))) [
    | inr e ↦ replayed-ends s (rw e at q)
    | inl e ↦
        round-ends rest s (replay_loop fn fuel)
          (λ n s' big long.
            replay_loop-ends fuel (drop n rest) s' (omega (arith, length-drop n rest)))
          (rw e at q)
  ]

  -- Whatever bytes a segment file holds, the fuel is enough: the replay ends, by the end of the file,
  -- by a torn or corrupt record, or by an error.
  pub replay_segment-ends : (bytes : Bytes) (s : S) → replay_segment fn bytes s ≢ unfinished
  unfolding replay_segment
  replay_segment-ends bytes s = replay_loop-ends (suc (length bytes)) bytes s (omega arith)

  visit_records-append :
      (xs ys : List WalRecord) (s : S)
      → visit_records fn (xs ++ ys) s ≡ and_then (visit_records fn xs s) (visit_records fn ys)
  visit_records-append [] ys s = refl
  visit_records-append (x ∷ xs) ys s =
      ap (and_then (called (fn x s))) (fun_ext (visit_records-append xs ys))
      ∙ sym (and_then_assoc (called (fn x s)) (visit_records fn xs) (visit_records fn ys))

  -- A log whose segments hold the frames of some records, each segment perhaps cut by a crash within
  -- one more: the replay hands over exactly these records, in the order of the segments and of the
  -- appends, and ends as the callback does.
  pub replay_segments-Logged :
      (segs : List (ℕ × Bytes)) (recs : List WalRecord) (s : S)
      → Logged segs recs
      → replay_segments fn (readable segs) s ≡ visit_records fn recs s
  unfolding replay_segments
  replay_segments-Logged [] recs s no_segments = refl
  replay_segments-Logged ((seq, b) ∷ segs) all s
        (segment {recs = recs} here tail fit cut file whole rest) =
      let first =
        ap (λ t. replay_segment fn t s) file ∙ replay_segment-records fn here tail s fit cut in
      let ih : (s' : S) → replay_segments fn (readable segs) s' ≡ visit_records fn recs s' =
        λ s'. replay_segments-Logged segs recs s' rest in
      ap (λ r. and_then r (replay_segments fn (readable segs))) first
      ∙ ap (and_then (visit_records fn here s)) (fun_ext ih)
      ∙ sym (visit_records-append here recs s)
      ∙ ap (λ t. visit_records fn t s) (sym whole)
