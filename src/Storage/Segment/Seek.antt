-- ===== src/Storage/Segment/Seek.antt =====
-- internal/storage/segment.go and index.go: a read that starts at the index entry finds what a read
-- from the segment's start finds.
use mq.Common.{
  ℕ, suc, ◌+◌, ◌-◌, ◌^◌, ◌≤◌, ◌<◌, ◌≡◌, ◌⊎◌, inl, inr, refl, sym, ap, ◌∙◌, true, false, List, [],
  ◌∷◌, ◌++◌, Bytes, Int32, Int64, arith, append_assoc, length, drop, flatten, All, length-append,
  flatten-append, All-back, take-append-drop, le_i32, lt_i64, sub64, to_i32, Bool-cases, leb,
}
use mathlib.Core.Path.{subst}
use mq.Record.Batch.{read_header, last_offset}
use mq.Record.WellFormed.{IsBatch, length-le-flatten}
use mq.Storage.Index.{IndexEntry}
use mq.Storage.Index.Floor.{floor_scan, floor_position-floor_scan}
use mq.Storage.Segment.{Segment, got, read_loop, read_batches_from}
use mq.Storage.Segment.Read.{select, read_loop-select}
use mq.Storage.Segment.Holds.{
  delta, StartsAt, Chain, Indexed, Holds, stop, skip, entry, Chain-le, Chain-IsBatch,
  last_offset-StartsAt, Indexed-IsSorted,
}

abbrev Below : ℕ → List Bytes → Type 0
Below want bs = All (λ b. lt_i64 (last_offset (read_header b)) want ≡ true) bs

-- Where the scan lands: on a batch before which every batch ends below `want`.
record Lands (want o pos p : ℕ) (bs : List Bytes) : Type 0 where
  front : List Bytes
  back : List Bytes
  split : bs ≡ front ++ back
  at : p ≡ pos + length (flatten front)
  below : Below want front
  reached : o ≤ want

ends_below :
    (o want next : ℕ) (b : Bytes) (bs : List Bytes)
    → StartsAt o b
    → Chain (o + delta b + 1) bs next
    → next < 2 ^ 63
    → want < 2 ^ 63
    → o + delta b + 1 ≤ want
    → lt_i64 (last_offset (read_header b)) want ≡ true
ends_below o want next b bs h c n w l =
    let e = last_offset-StartsAt o b h (omega (arith, Chain-le (o + delta b + 1) next bs c)) in
    rw e (ground arith)

prepend :
    (want o pos p next : ℕ) (b : Bytes) (bs : List Bytes)
    → StartsAt o b
    → Chain (o + delta b + 1) bs next
    → next < 2 ^ 63
    → want < 2 ^ 63
    → Lands want (o + delta b + 1) (pos + length b) p bs
    → Lands want o pos p (b ∷ bs)
prepend want o pos p next b bs h c n w l = record {
  front = b ∷ l.front;
  back = l.back;
  split = ap (λ t. b ∷ t) l.split;
  at = omega (arith, l.at, length-append b (flatten l.front));
  below = (ends_below o want next b bs h c n w l.reached, l.below);
  reached = omega (arith, l.reached);
}

floor_scan-Lands :
    (seg want o pos next p0 : ℕ) (bs : List Bytes) (es : List IndexEntry)
    → Indexed seg o pos bs es
    → Chain o bs next
    → seg ≤ o
    → seg ≤ want
    → want < next
    → next ≤ seg + 2 ^ 31
    → next < 2 ^ 63
    → (floor_scan es (want - seg) p0 ≡ p0) ⊎ Lands want o pos (floor_scan es (want - seg) p0) bs
unfolding floor_scan
floor_scan-Lands seg want o pos next p0 bs es stop c l w m s n = inl refl
floor_scan-Lands seg want o pos next p0 bs es (skip {b = b} {bs = rest} i) c l w m s n =
    elim (floor_scan-Lands seg want (o + delta b + 1) (pos + length b) next p0 rest es i c.1
      (omega arith) w m s n) [
        | inl e ↦ inl e
        | inr lands ↦ inr (prepend want o pos _ next b rest c.0 c.1 n (omega arith) lands)
      ]
floor_scan-Lands seg want o pos next p0 bs es (entry {b = b} {bs = rest} {e = e} {es = more} r p i)
      c l w m s n =
    elim (Bool-cases (leb o want)) [
      | inl near ↦
          let fits : le_i32 e.rel_offset (want - seg) ≡ true = ground (arith, r) in
          rw fits
            (elim (floor_scan-Lands seg want (o + delta b + 1) (pos + length b) next e.position rest
              more i c.1 (omega arith) w m s n) [
                | inl same ↦ inr (record {
                  front = [];
                  back = b ∷ rest;
                  split = refl;
                  at = omega arith;
                  below = tt;
                  reached = ground arith;
                })
                | inr lands ↦ inr (prepend want o pos _ next b rest c.0 c.1 n (omega arith) lands)
              ])
      | inr far ↦
          let over : le_i32 e.rel_offset (want - seg) ≡ false =
            ground (arith, r, Chain-le (o + delta b + 1) next rest c.1) in
          rw over
            (elim (floor_scan-Lands seg want (o + delta b + 1) (pos + length b) next p0 rest more i
              c.1 (omega arith) w m s n) [
                | inl same ↦ inl same
                | inr lands ↦ absurd (ground (arith, lands.reached))
              ])
    ]

select-Below :
    (want : Int64) (max : ℕ) (out : Bytes) (front back : List Bytes)
    → Below want front
    → select want max out (front ++ back) ≡ select want max out back
unfolding select
select-Below want max out [] back h = refl
select-Below want max out (b ∷ front) back h = rw h.0 (select-Below want max out front back h.1)

-- The batches, and then what does not count.
pub Holds-file :
    (s : Segment) (bs : List Bytes) (next : ℕ)
    → Holds s bs next
    → s.log_file ≡ flatten bs ++ drop s.log_size s.log_file
Holds-file s bs next h =
    sym (take-append-drop s.log_size s.log_file)
    ∙ ap (λ t. t ++ drop s.log_size s.log_file) h.content

read_from_boundary :
    (s : Segment) (front back : List Bytes) (next : ℕ) (want : Int64) (max_bytes : Int32)
    → Holds s (front ++ back) next
    → max_bytes < 2 ^ 31
    → Below want front
    → read_loop (suc (length s.log_file)) s want max_bytes (length (flatten front)) []
      ≡ got (select want max_bytes [] (front ++ back))
read_from_boundary s front back next want max_bytes h m below =
    let all = Chain-IsBatch s.base_offset next (front ++ back) h.chain in
    let parts : flatten (front ++ back) ≡ flatten front ++ flatten back =
      flatten-append front back in
    let junk = drop s.log_size s.log_file in
    let file : s.log_file ≡ flatten front ++ (flatten back ++ junk) =
      Holds-file s (front ++ back) next h
      ∙ ap (λ t. t ++ junk) parts
      ∙ append_assoc (flatten front) (flatten back) junk in
    let size : s.log_size ≡ length (flatten front) + length (flatten back) =
      h.size ∙ ap length parts ∙ length-append (flatten front) (flatten back) in
    let room : length s.log_file ≡ length (flatten front) + (length (flatten back) + length junk) =
      ap length file
      ∙ omega (
        arith,
        length-append (flatten front) (flatten back ++ junk),
        length-append (flatten back) junk,
      ) in
    let backs = All-back IsBatch front back all in
    read_loop-select back (suc (length s.log_file)) s want max_bytes (flatten front) junk [] backs
      file size h.small m (omega arith) (omega (arith, length-le-flatten back backs))
    ∙ ap got (sym (select-Below want max_bytes [] front back below))

-- A segment that holds the batches `bs`, read at an offset `want` within them: the scan that begins
-- at the binary search's index entry ends, without an error or a panic, and returns what a scan of
-- all its batches selects.
pub read_batches_from-select :
    (s : Segment) (bs : List Bytes) (next : ℕ) (want : Int64) (max_bytes : Int32)
    → Holds s bs next
    → s.base_offset ≤ want
    → want < next
    → max_bytes < 2 ^ 31
    → read_batches_from s want max_bytes ≡ got (select want max_bytes [] bs)
unfolding read_batches_from
read_batches_from-select s bs next want max_bytes h low high m =
    let rel : to_i32 (sub64 want s.base_offset) ≡ want - s.base_offset =
      omega (arith, h.span, h.offsets) in
    let sorted =
      Indexed-IsSorted s.base_offset s.base_offset 0 next bs s.index h.indexed h.chain (omega arith)
        h.span in
    rw (rel, floor_position-floor_scan s.index (want - s.base_offset) sorted)
      (elim (floor_scan-Lands s.base_offset want s.base_offset 0 next 0 bs s.index h.indexed h.chain
        (omega arith) low high h.span h.offsets) [
          | inl start ↦ rw start (read_from_boundary s [] bs next want max_bytes h m tt)
          | inr lands ↦
              let at : floor_scan s.index (want - s.base_offset) 0 ≡ length (flatten lands.front) =
                omega (arith, lands.at) in
              let h' : Holds s (lands.front ++ lands.back) next =
                subst (λ xs. Holds s xs next) lands.split h in
              rw (at, lands.split)
                (read_from_boundary s lands.front lands.back next want max_bytes h' m lands.below)
        ])
