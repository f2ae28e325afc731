-- ===== src/Storage/Object/Read/Slices.antt =====
-- internal/storage/object/read.go (sliceBatches): the loop over the bytes against the recursion over
-- the batches that stands for the file log's reader too.
use mq.Common.{
  ℕ, zero, suc, ◌+◌, ◌^◌, ◌≤◌, ◌<◌, ◌≡◌, refl, sym, ap, ◌∙◌, Bool, true, false, not, ◌&&◌, List, [],
  ◌∷◌, ◌++◌, Bytes, Int32, Int64, arith, append_assoc, length, take, drop, flatten, All,
  length-append, drop-length, take-length, ltb, leb, lt_i64, is_neg64, add64, if◌then◌else◌, ok,
  append-nil,
}
use mq.Record.Batch.{parse_header, read_header, last_offset}
use mq.Record.WellFormed.{IsBatch, parse_header-IsBatch, total_size-IsBatch, length-le-flatten}
use mq.Storage.Segment.{is_empty}
use mq.Storage.Segment.Read.{select}
use mq.Storage.Object.Read.{Sliced, sliced, add_slice, slice_round, slice_loop, slice_batches}

if-sliced :
    (p q r : Bool) (w x y z : Bytes)
    → (if p then sliced w else if q then sliced x else if r then sliced y else sliced z)
      ≡ sliced (if p then w else if q then x else if r then y else z)
if-sliced true q r w x y z = refl
if-sliced false true r w x y z = refl
if-sliced false false true w x y z = refl
if-sliced false false false w x y z = refl

slice_round-IsBatch :
    (bytes pre b rest out : Bytes) (want : Int64) (max_bytes : Int32)
    (next : Int64 → Bytes → Sliced)
    → IsBatch b
    → bytes ≡ pre ++ (b ++ rest)
    → length bytes < 2 ^ 31
    → length out ≤ length pre
    → max_bytes < 2 ^ 31
    → slice_round bytes want max_bytes (length pre) out (ok (read_header b)) next ≡ (
        if lt_i64 (last_offset (read_header b)) want
        then next (length pre + length b) out
        else if not (is_empty out) && ltb max_bytes (length out + length b)
        then sliced out
        else if leb max_bytes (length (out ++ b))
        then sliced (out ++ b)
        else next (length pre + length b) (out ++ b))
unfolding slice_round add_slice
slice_round-IsBatch bytes pre b rest out want max_bytes next h e small o m =
    let size = total_size-IsBatch b h in
    let l = length-append pre (b ++ rest) in
    let k = length-append b rest in
    let total : length bytes ≡ length pre + (length b + length rest) =
      ap length e ∙ l ∙ omega (arith, k) in
    let n : add64 (length pre) (length b) ≡ length pre + length b = omega arith in
    let inside : lt_i64 (length bytes) (length pre + length b) ≡ false = ground arith in
    let here : take (length b) (drop (length pre) bytes) ≡ b =
      ap (λ d. take (length b) (drop (length pre) d)) e
      ∙ ap (take (length b)) (drop-length pre (b ++ rest))
      ∙ take-length b rest in
    rw (size, n, inside, here) (ground (arith, length-append out b))

slice_loop-select :
    (bs : List Bytes) (fuel : ℕ) (bytes pre out : Bytes) (want : Int64) (max_bytes : Int32)
    → All IsBatch bs
    → bytes ≡ pre ++ flatten bs
    → length bytes < 2 ^ 31
    → max_bytes < 2 ^ 31
    → length out ≤ length pre
    → length bs < fuel
    → slice_loop fuel bytes want max_bytes (length pre) out ≡ sliced (select want max_bytes out bs)
unfolding slice_loop select
slice_loop-select bs zero bytes pre out want max_bytes h e small m o f = absurd (omega arith)
slice_loop-select [] (suc fuel) bytes pre out want max_bytes h e small m o f =
    let size : length bytes ≡ length pre = ap length (e ∙ append-nil pre) in
    let n : lt_i64 (length pre) (length bytes) ≡ false = ground arith in rw n refl
slice_loop-select (b ∷ bs) (suc fuel) bytes pre out want max_bytes h e small m o f =
    let rest = flatten bs in
    let next : bytes ≡ (pre ++ b) ++ rest = e ∙ sym (append_assoc pre b rest) in
    let k : length (pre ++ b) ≡ length pre + length b = length-append pre b in
    let size : length bytes ≡ length pre + (length b + length rest) =
      ap length e ∙ length-append pre (b ++ rest) ∙ omega (arith, length-append b rest) in
    let inside : lt_i64 (length pre) (length bytes) ≡ true = ground (arith, h.0.long) in
    let positive : is_neg64 (length pre) ≡ false = ground arith in
    let skipped = rw k at (
      slice_loop-select bs fuel bytes (pre ++ b) out want max_bytes h.1 next small m (omega arith)
        (omega arith)) in
    let added = rw k at (
      slice_loop-select bs fuel bytes (pre ++ b) (out ++ b) want max_bytes h.1 next small m
        (omega (arith, length-append out b)) (omega arith)) in
    let header =
      ap (λ d. parse_header (drop (length pre) d)) e
      ∙ ap parse_header (drop-length pre (b ++ rest))
      ∙ parse_header-IsBatch b rest h.0 in
    rw
      (
        inside,
        positive,
        header,
        slice_round-IsBatch bytes pre b rest out want max_bytes
            (slice_loop fuel bytes want max_bytes) h.0 e small o m,
        skipped,
        added,
      )
      (if-sliced (lt_i64 (last_offset (read_header b)) want)
        (not (is_empty out) && ltb max_bytes (length out + length b))
        (leb max_bytes (length (out ++ b))) (select want max_bytes out bs) out (out ++ b)
        (select want max_bytes (out ++ b) bs))

-- On whole batches, less than 2 ^ 31 bytes in all, and for a limit that is not negative:
-- sliceBatches ends, without an error, with the batches that a plain recursion selects: from the
-- first that reaches the offset on, as many as fit the limit, and at least one if there is one.
pub slice_batches-select :
    (bs : List Bytes) (want : Int64) (max_bytes : Int32)
    → All IsBatch bs
    → length (flatten bs) < 2 ^ 31
    → max_bytes < 2 ^ 31
    → slice_batches (flatten bs) want max_bytes ≡ sliced (select want max_bytes [] bs)
unfolding slice_batches
slice_batches-select bs want max_bytes h small m =
    slice_loop-select bs (suc (length (flatten bs))) (flatten bs) [] [] want max_bytes h refl small
      m (omega arith) (omega (arith, length-le-flatten bs h))
