-- ===== src/Storage/Recovery/Whole.antt =====
-- internal/storage/log.go (recoverActive): after a crash the segment holds the whole batches of its
-- file and nothing else.
use mathlib.Core.Path.{subst}
use mq.Common.{
  ℕ, suc, ◌+◌, ◌^◌, ◌≤◌, ◌<◌, ◌≡◌, refl, sym, ap, ◌∙◌, true, false, some, List, [], ◌∷◌, ◌++◌,
  Bytes, arith, append-nil, length, take, flatten, length-append, take-length, ltb, lt_i32, to_i32,
  add32, sub32, if◌then◌else◌, ok, Bool-cases, ==_iff, inl, inr, ◌==◌, take-all,
}
use mq.Record.Batch.{read_header}
use mq.Record.WellFormed.{parse_header-front, length-le-flatten}
use mq.Record.Iterate.Ends.{IsTorn, header-IsTorn}
use mq.Storage.Segment.{Segment, parse_at, parse_read}
use mq.Storage.Segment.Read.{read_at-middle}
use mq.Storage.Segment.Holds.{Holds, Chain, Indexed, delta, Chain-IsBatch, Chain-le}
use mq.Storage.Recovery.{Scan, stopped, scan_round, scan_loop, settle, settled, recover_active}
use mq.Storage.Recovery.Passes.{next_after, Passed, scan_loop-Chain}

-- What a crash leaves behind the whole batches: nothing, or the front of one more batch, of which
-- at most `room` bytes are missing.
pub data Tail (room : ℕ) : Bytes → Type 0 where
  clean : Tail room []
  torn : {tail missing : Bytes} → IsTorn tail missing → length missing ≤ room → Tail room tail

module _ (s : Segment) (room : ℕ) (fits : s.log_size + room < 2 ^ 31) where
  -- The scan stops where the whole batches end.
  scan_loop-Tail :
      (pre tail : Bytes) (more : ℕ) (end : Scan)
      → Tail room tail
      → s.log_file ≡ pre ++ tail
      → s.log_size ≡ length s.log_file
      → end.pos ≡ length pre
      → scan_loop (suc more) s end ≡ stopped end
  unfolding scan_loop scan_round
  scan_loop-Tail pre tail more end clean file size at =
      let k : s.log_size ≡ length pre = size ∙ ap length (file ∙ append-nil pre) in
      let past : lt_i32 end.pos s.log_size ≡ false = ground arith in rw past refl
  scan_loop-Tail pre tail more end (torn {missing = missing} h few) file size at =
      let k : s.log_size ≡ length pre + length tail =
        size ∙ ap length file ∙ length-append pre tail in
      let inside : lt_i32 end.pos s.log_size ≡ true = ground (arith, h.some_bytes) in
      elim (Bool-cases (ltb (length tail) 61)) [
        | inl e ↦
            let short : lt_i32 (sub32 s.log_size end.pos) 61 ≡ true = ground arith in
            rw (inside, short) refl
        | inr e ↦
            let long : lt_i32 (sub32 s.log_size end.pos) 61 ≡ false = ground arith in
            let (magic, total) = header-IsTorn tail missing h (ground arith) in
            let read : parse_at s (length pre) ≡ some (ok (read_header tail)) =
              ap parse_read (
                read_at-middle s.log_file pre tail [] 61
                  (file ∙ ap (λ t. pre ++ t) (sym (append-nil tail))) (omega arith) (ground arith))
              ∙ ap some (parse_header-front tail [] (ground arith) magic) in
            let past : lt_i32 s.log_size (add32 end.pos (to_i32 (length tail + length missing)))
                ≡ true =
              ground (arith, h.cut) in
            rw (inside, long, ap (parse_at s) at ∙ read, total, past) refl
      ]

-- What recoverActive makes of a segment.
pub record Recovered (s : Segment) (bs : List Bytes) (next : ℕ) (s' : Segment) : Type 0 where
  pub holds : Holds s' bs next
  pub whole : s'.log_file ≡ flatten bs
  pub base : s'.base_offset ≡ s.base_offset

settled_offset :
    (s : Segment) (bs : List Bytes) (next : ℕ) (start c : Scan)
    → Chain s.base_offset bs next
    → start.next ≡ 0
    → c.next ≡ next_after start.next next bs
    → (if c.next == 0 then s.base_offset else c.next) ≡ next
settled_offset s [] next start c ch z e = ground arith
settled_offset s (b ∷ bs) next start c ch z e =
    ground (arith, Chain-le (s.base_offset + delta b + 1) next bs ch.1)

-- The end of recoverActive, once the scan has passed the batches.
settle-Passed :
    (s : Segment) (bs : List Bytes) (tail : Bytes) (next : ℕ) (start c : Scan)
    → Chain s.base_offset bs next
    → s.log_file ≡ flatten bs ++ tail
    → s.log_size ≡ length s.log_file
    → s.log_size < 2 ^ 31
    → next ≤ s.base_offset + 2 ^ 31
    → next < 2 ^ 63
    → start.next ≡ 0
    → start.index ≡ []
    → Passed s s.base_offset 0 next bs start c
    → (s' : Segment) × (settle true true s c ≡ some (next, s')) × Recovered s bs next s'
unfolding settle
settle-Passed s bs tail next start c ch file size small span top zero_next no_index p =
    let at : c.pos ≡ length (flatten bs) = omega (arith, p.at) in
    let kept : take c.pos s.log_file ≡ flatten bs =
      ap (λ n. take n s.log_file) at
      ∙ ap (take (length (flatten bs))) file
      ∙ take-length (flatten bs) tail in
    let s' : Segment = settled s c in
    let whole : s'.log_file ≡ flatten bs = elim (Bool-cases (c.pos == s.log_size)) [
      | inl e ↦ rw e (
          sym (take-all s.log_file)
          ∙ ap (λ n. take n s.log_file) (sym size ∙ sym ((==_iff c.pos s.log_size).0 e))
          ∙ kept)
      | inr e ↦ rw e kept
    ] in
    (
      s',
      ground (arith, settled_offset s bs next start c ch zero_next p.offset),
      record {
        holds = record {
          content =
              ap (take c.pos) whole ∙ ap (λ n. take n (flatten bs)) at ∙ take-all (flatten bs);
          size = at;
          small = omega (arith, at, ap length file, length-append (flatten bs) tail);
          chain = ch;
          indexed =
              subst (Indexed s.base_offset s.base_offset 0 bs)
                (sym (p.index ∙ ap (λ es. es ++ p.entries) no_index)) p.indexed;
          span = span;
          offsets = top;
        };
        whole = whole;
        base = refl;
      },
    )

-- A segment file that holds whole batches, one after another from the base offset on, with what a
-- crash left of one more behind them, and that is below 2 ^ 31 bytes with that one: recovery
-- succeeds, if the disk does what it is told. It answers the offset after the last whole batch, cuts
-- the file to exactly the whole batches, and the index that it builds is sound.
pub recover_active-Recovered :
    (s : Segment) (bs : List Bytes) (tail : Bytes) (next room : ℕ)
    → Chain s.base_offset bs next
    → Tail room tail
    → s.log_file ≡ flatten bs ++ tail
    → s.log_size ≡ length s.log_file
    → s.log_size + room < 2 ^ 31
    → next ≤ s.base_offset + 2 ^ 31
    → next < 2 ^ 63
    → (s' : Segment) × (recover_active true true s ≡ some (next, s')) × Recovered s bs next s'
unfolding recover_active
recover_active-Recovered s bs tail next room ch t file size small span top =
    let start : Scan = record { pos = 0; next = 0; index = []; since = 0 } in
    let all = Chain-IsBatch s.base_offset next bs ch in
    let (c, run, passed) =
      scan_loop-Chain s (omega arith) bs (suc (length s.log_file)) [] tail start s.base_offset next
        ch file size (omega arith) span top refl
        (omega (arith, length-le-flatten bs all, ap length file, length-append (flatten bs) tail))
        (λ more end at.
          scan_loop-Tail s room small (flatten bs) tail more end t file size (omega (arith, at))) in
    let (s', e, r) =
      settle-Passed s bs tail next start c ch file size (omega arith) span top refl refl passed in
    (s', rw run e, r)
