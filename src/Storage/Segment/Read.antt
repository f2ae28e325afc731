-- ===== src/Storage/Segment/Read.antt =====
-- internal/storage/segment.go (readBatchesFrom): the scan over the file against a plain recursion
-- over the batches that it holds.
use mq.Common.{
  ℕ, zero, suc, ◌+◌, ◌^◌, ◌≤◌, ◌<◌, ◌≡◌, refl, sym, ap, ◌∙◌, Bool, true, false, not, ◌&&◌, some,
  List, [], ◌∷◌, ◌++◌, Bytes, Int32, Int64, arith, append_assoc, length, take, flatten, All,
  length-append, drop-length, take-length, ltb, leb, lt_i64, lt_i32, to_i32, add32, if◌then◌else◌,
  lt→not_leb, le→not_ltb, ok,
}
use mq.Record.Batch.{read_header, total_size, last_offset}
use mq.Record.WellFormed.{IsBatch, parse_header-take, total_size-IsBatch}
use mq.Storage.Segment.{
  Segment, Gathered, got, is_empty, parse_at, read_at, read_round, read_loop, gather,
}

-- Batches that end below `want` are passed over; then batches are added while they fit, the first
-- of them in any case.
unfoldable pub select : Int64 → ℕ → Bytes → List Bytes → Bytes
select want max out [] = out
select want max out (b ∷ bs) =
    let skip = select want max out bs in
    let add = select want max (out ++ b) bs in
    if lt_i64 (last_offset (read_header b)) want
    then skip
    else if not (is_empty out) && ltb max (length out + length b)
    then out
    else if leb max (length (out ++ b))
    then out ++ b
    else add

pub read_at-middle :
    (file pre b rest : Bytes) (n : ℕ)
    → file ≡ pre ++ (b ++ rest)
    → length pre < 2 ^ 31
    → n ≤ length b
    → read_at file (length pre) n ≡ some (take n (b ++ rest))
unfolding read_at
read_at-middle file pre b rest n e small le = rw (
  lt→not_leb (length pre) (2 ^ 31) small,
  e,
  le→not_ltb (length (pre ++ (b ++ rest))) (length pre + n)
      (omega (arith, length-append pre (b ++ rest), length-append b rest)),
  drop-length pre (b ++ rest),
)

pub parse_at-IsBatch :
    (s : Segment) (pre b rest : Bytes)
    → s.log_file ≡ pre ++ (b ++ rest)
    → length pre < 2 ^ 31
    → IsBatch b
    → parse_at s (length pre) ≡ some (ok (read_header b))
parse_at-IsBatch s pre b rest e small h =
    rw (read_at-middle s.log_file pre b rest 61 e small h.long, parse_header-take b rest h)

gather-IsBatch :
    (s : Segment) (max_bytes : Int32) (pre b rest out : Bytes) (next : Int32 → Bytes → Gathered)
    → s.log_file ≡ pre ++ (b ++ rest)
    → length pre + length b < 2 ^ 31
    → length out ≤ length pre
    → max_bytes < 2 ^ 31
    → gather s max_bytes (length pre) (length b) out next ≡ (
        if not (is_empty out) && ltb max_bytes (length out + length b)
        then got out
        else if leb max_bytes (length (out ++ b))
        then got (out ++ b)
        else next (length pre + length b) (out ++ b))
unfolding gather
gather-IsBatch s max_bytes pre b rest out next e small fits m =
    rw
      (
        read_at-middle s.log_file pre b rest (length b) e (omega arith) (omega arith),
        take-length b rest,
        lt→not_leb (length b) (2 ^ 31) (omega arith),
      )
      (ground (arith, length-append out b))

pub total_size-i32 : (b : Bytes) → IsBatch b → to_i32 (total_size (read_header b)) ≡ length b
total_size-i32 b h =
    let e = total_size-IsBatch b h in
    let n : length b < 2 ^ 32 = omega (arith, h.sized, h.small) in rw e (omega arith)

read_round-IsBatch :
    (s : Segment) (want : Int64) (max_bytes : Int32) (pre b rest out : Bytes)
    (next : Int32 → Bytes → Gathered)
    → IsBatch b
    → s.log_file ≡ pre ++ (b ++ rest)
    → length pre + length b < 2 ^ 31
    → length out ≤ length pre
    → max_bytes < 2 ^ 31
    → read_round s want max_bytes (length pre) out (some (ok (read_header b))) next ≡ (
        if lt_i64 (last_offset (read_header b)) want
        then next (length pre + length b) out
        else if not (is_empty out) && ltb max_bytes (length out + length b)
        then got out
        else if leb max_bytes (length (out ++ b))
        then got (out ++ b)
        else next (length pre + length b) (out ++ b))
unfolding read_round
read_round-IsBatch s want max_bytes pre b rest out next h e small o m =
    let n : add32 (length pre) (length b) ≡ length pre + length b = omega arith in
    rw (total_size-i32 b h, n, gather-IsBatch s max_bytes pre b rest out next e small o m)

if-got :
    (p q r : Bool) (w x y z : Bytes)
    → (if p then got w else if q then got x else if r then got y else got z)
      ≡ got (if p then w else if q then x else if r then y else z)
if-got true q r w x y z = refl
if-got false true r w x y z = refl
if-got false false true w x y z = refl
if-got false false false w x y z = refl

-- From where whole batches begin, the loop gathers what the recursion selects.
pub read_loop-select :
    (bs : List Bytes) (fuel : ℕ) (s : Segment) (want : Int64) (max_bytes : Int32)
    (pre junk out : Bytes)
    → All IsBatch bs
    → s.log_file ≡ pre ++ (flatten bs ++ junk)
    → s.log_size ≡ length pre + length (flatten bs)
    → s.log_size < 2 ^ 31
    → max_bytes < 2 ^ 31
    → length out ≤ length pre
    → length bs < fuel
    → read_loop fuel s want max_bytes (length pre) out ≡ got (select want max_bytes out bs)
unfolding read_loop select
read_loop-select bs zero s want max_bytes pre junk out h file size small m o f =
    absurd (omega arith)
read_loop-select [] (suc fuel) s want max_bytes pre junk out h file size small m o f =
    let n : lt_i32 (length pre) s.log_size ≡ false = ground arith in rw n
read_loop-select (b ∷ bs) (suc fuel) s want max_bytes pre junk out h file size small m o f =
    let rest = flatten bs ++ junk in
    let file_at : s.log_file ≡ pre ++ (b ++ rest) =
      file ∙ ap (λ t. pre ++ t) (append_assoc b (flatten bs) junk) in
    let file_next : s.log_file ≡ (pre ++ b) ++ rest = file_at ∙ sym (append_assoc pre b rest) in
    let l : length (b ++ flatten bs) ≡ length b + length (flatten bs) =
      length-append b (flatten bs) in
    let k : length (pre ++ b) ≡ length pre + length b = length-append pre b in
    let size_next : s.log_size ≡ length (pre ++ b) + length (flatten bs) = omega arith in
    let inside : lt_i32 (length pre) s.log_size ≡ true = ground (arith, h.0.long) in
    let skipped = rw k at (
      read_loop-select bs fuel s want max_bytes (pre ++ b) junk out h.1 file_next size_next small m
        (omega arith) (omega arith)) in
    let added = rw k at (
      read_loop-select bs fuel s want max_bytes (pre ++ b) junk (out ++ b) h.1 file_next size_next
        small m (omega (arith, length-append out b)) (omega arith)) in
    rw
      (
        inside,
        parse_at-IsBatch s pre b rest file_at (omega arith) h.0,
        read_round-IsBatch s want max_bytes pre b rest out (read_loop fuel s want max_bytes) h.0
            file_at (omega arith) o m,
        skipped,
        added,
      )
      (if-got (lt_i64 (last_offset (read_header b)) want)
        (not (is_empty out) && ltb max_bytes (length out + length b))
        (leb max_bytes (length (out ++ b))) (select want max_bytes out bs) out (out ++ b)
        (select want max_bytes (out ++ b) bs))
