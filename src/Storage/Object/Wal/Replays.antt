-- ===== src/Storage/Object/Wal/Replays.antt =====
-- internal/storage/object/wal.go: a replay reads back what was appended, up to a torn end.
use mathlib.Core.Path.{fun_ext}
use mq.Common.{
  ℕ, zero, suc, ◌+◌, ◌<◌, ◌≤◌, ◌≡◌, refl, sym, ap, ◌∙◌, true, List, [], ◌∷◌, ◌++◌, map, Bytes,
  arith, append_assoc, append-nil, length, take, drop, get_or, flatten, All, length-append,
  take-length, drop-length, drop-drop, be32, ltb, ◌==◌, ==_iff, le→not_ltb, lt→ltb, Result,
  Bool-cases, inl, inr,
}
use mq.Record.Batch.{checksum}
use mq.Record.WellFormed.{be32_at}
use mq.Storage.Object.Wal.{
  WalRecord, wal_magic, encode_wal_payload, frame, Replay, replayed, and_then, called, replay_round,
  replay_loop, replay_segment,
}
use mq.Storage.Object.Wal.Frames.{Fits, frame_of-Shows, decode-encode_wal_payload}

-- A file's end that a crash left: the front of a frame, without its last bytes; it may be empty.
pub record IsCut (tail : Bytes) : Type 0 where
  pub rec : WalRecord
  pub missing : Bytes
  pub fits : Fits rec
  pub cut : 1 ≤ length missing
  pub whole : tail ++ missing ≡ frame rec

module _ {S E : Type 0} (fn : WalRecord → S → Result E S) where
  -- The records handed over one after another, until the callback fails.
  abbrev pub visit_records : List WalRecord → S → Replay S E
  visit_records [] s = replayed s
  visit_records (rec ∷ recs) s = and_then (called (fn rec s)) (visit_records recs)

  round-frame :
      (rec : WalRecord) (rest : Bytes) (s : S) (next : Bytes → S → Replay S E)
      → Fits rec
      → replay_round fn (frame rec ++ rest) s next ≡ and_then (called (fn rec s)) (next rest)
  unfolding replay_round
  round-frame rec rest s next h =
      let p = encode_wal_payload rec in
      let f = frame rec ++ rest in
      let sh = frame_of-Shows p rest h.size in
      let body : take (length p) (drop 9 f) ≡ p =
        ap (take (length p)) sh.body ∙ take-length p rest in
      let behind : drop (9 + length p) f ≡ rest =
        sym (drop-drop 9 (length p) f) ∙ ap (drop (length p)) sh.body ∙ drop-length p rest in
      rw
        (
          sh.magic,
          sh.size,
          sh.crc,
          body,
          behind,
          le→not_ltb (length f) 9 (omega (arith, sh.total)),
          le→not_ltb (length f) (9 + length p) (omega (arith, sh.total)),
          (==_iff (checksum p) (checksum p)).1 refl,
          decode-encode_wal_payload rec h.topic h.partition h.base_offset,
        )
        refl

  round-IsCut :
      (tail : Bytes) (s : S) (next : Bytes → S → Replay S E)
      → IsCut tail
      → replay_round fn tail s next ≡ replayed s
  unfolding replay_round
  round-IsCut tail s next h =
      let p = encode_wal_payload h.rec in
      elim (Bool-cases (get_or tail 0 0 == wal_magic)) [
        | inr e ↦ rw e refl
        | inl e ↦ elim (Bool-cases (ltb (length tail) 9)) [
          | inl f ↦ rw (e, f) refl
          | inr f ↦
              let sh = frame_of-Shows p [] h.fits.size in
              let nil : frame h.rec ++ [] ≡ tail ++ h.missing =
                ap (λ t. t ++ []) (sym h.whole) ∙ append-nil (tail ++ h.missing) in
              let n : be32 (drop 5 tail) ≡ length p =
                sym (be32_at 5 tail h.missing (ground arith))
                ∙ ap (λ t. be32 (drop 5 t)) (sym nil)
                ∙ sh.size in
              let short : ltb (length tail) (9 + length p) ≡ true =
                lt→ltb (length tail) (9 + length p)
                  (omega (arith, sh.total, ap length nil, length-append tail h.missing, h.cut)) in
              rw (e, f, n, short) refl
        ]
      ]

  replay_loop-records :
      (recs : List WalRecord) (fuel : ℕ) (tail : Bytes) (s : S)
      → All Fits recs
      → IsCut tail
      → length (flatten (map frame recs) ++ tail) < fuel
      → replay_loop fn fuel (flatten (map frame recs) ++ tail) s ≡ visit_records recs s
  unfolding replay_loop
  replay_loop-records recs zero tail s h t f = elim f [ ]
  replay_loop-records [] (suc fuel) tail s h t f = elim (Bool-cases (ltb 0 (length tail))) [
    | inl e ↦ rw e (round-IsCut tail s (replay_loop fn fuel) t)
    | inr e ↦ rw e refl
  ]
  replay_loop-records (rec ∷ recs) (suc fuel) tail s h t f =
      let rest = flatten (map frame recs) ++ tail in
      let e = append_assoc (frame rec) (flatten (map frame recs)) tail in
      let sh = frame_of-Shows (encode_wal_payload rec) rest h.0.size in
      let ih : (s' : S) → replay_loop fn fuel rest s' ≡ visit_records recs s' =
        λ s'. replay_loop-records recs fuel tail s' h.1 t (omega (arith, ap length e, sh.total)) in
      rw (e, lt→ltb 0 (length (frame rec ++ rest)) (omega (arith, sh.total)))
        (round-frame rec rest s (replay_loop fn fuel) h.0
          ∙ ap (and_then (called (fn rec s))) (fun_ext ih))

  -- A segment file that holds the frames of some records, and behind them what a crash left of one
  -- more: the replay hands over exactly these records, in order and as they were appended, and ends
  -- as the callback does.
  pub replay_segment-records :
      (recs : List WalRecord) (tail : Bytes) (s : S)
      → All Fits recs
      → IsCut tail
      → replay_segment fn (flatten (map frame recs) ++ tail) s ≡ visit_records recs s
  unfolding replay_segment
  replay_segment-records recs tail s h t =
      replay_loop-records recs (suc (length (flatten (map frame recs) ++ tail))) tail s h t
        (omega arith)
