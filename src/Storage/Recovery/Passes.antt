-- ===== src/Storage/Recovery/Passes.antt =====
-- internal/storage/log.go (recoverActive): how the scan passes the whole batches of a segment.
use mathlib.Core.Path.{subst}
use mq.Common.{
  ℕ, zero, suc, ◌+◌, ◌^◌, ◌≤◌, ◌<◌, ◌≡◌, refl, sym, ap, ◌∙◌, true, false, ◌||◌, List, [], ◌∷◌, ◌++◌,
  Bytes, Int64, arith, append_assoc, append-nil, length, flatten, length-append, lt_i32, le_i32,
  to_i32, add32, sub32, sub64, Bool-cases, inl, inr,
}
use mq.Record.Batch.{read_header}
use mq.Storage.Index.{IndexEntry}
use mq.Storage.Segment.{Segment, is_empty, parse_at}
use mq.Storage.Segment.Read.{parse_at-IsBatch, total_size-i32}
use mq.Storage.Segment.Holds.{
  Chain, StartsAt, Indexed, stop, skip, entry, delta, last_offset-StartsAt, Chain-le,
}
use mq.Storage.Recovery.{Scan, stopped, pass, scan_round, scan_loop}

-- The next offset after the scan of some batches.
abbrev pub next_after : Int64 → ℕ → List Bytes → Int64
next_after before next [] = before
next_after before next (b ∷ bs) = next

next_after-Chain : (o next : ℕ) (bs : List Bytes) → Chain o bs next → next_after o next bs ≡ next
next_after-Chain o next [] h = h
next_after-Chain o next (b ∷ bs) h = refl

pub record Passed (s : Segment) (o pos next : ℕ) (bs : List Bytes) (c c' : Scan) : Type 0 where
  pub at : c'.pos ≡ pos + length (flatten bs)
  pub offset : c'.next ≡ next_after c.next next bs
  pub entries : List IndexEntry
  pub index : c'.index ≡ c.index ++ entries
  pub indexed : Indexed s.base_offset o pos bs entries

module _ (s : Segment) (small : s.log_size < 2 ^ 31) where
  -- One whole batch is passed.
  pass-StartsAt :
      (c : Scan) (b : Bytes) (bs : List Bytes) (o pos next : ℕ)
      → StartsAt o b
      → Chain (o + delta b + 1) bs next
      → s.base_offset ≤ o
      → next ≤ s.base_offset + 2 ^ 31
      → next < 2 ^ 63
      → c.pos ≡ pos
      → pos + length b < 2 ^ 31
      → (c' : Scan)
      → Passed s (o + delta b + 1) (pos + length b) next bs (pass s c (read_header b) (length b)) c'
      → Passed s o pos next (b ∷ bs) c c'
  pass-StartsAt c b bs o pos next st chain low span top at fits c' h =
      let le = Chain-le (o + delta b + 1) next bs chain in
      let last = last_offset-StartsAt o b st (omega arith) in
      let size = length-append b (flatten bs) in
      let offset : c'.next ≡ next =
        h.offset ∙ next_after-Chain _ next bs (subst (λ x. Chain x bs next) (omega arith) chain) in
      let e : IndexEntry = record {
        rel_offset = to_i32 (sub64 (read_header b).base_offset s.base_offset);
        position = c.pos;
      } in
      let due = is_empty c.index || le_i32 s.index_interval c.since in
      elim (Bool-cases due) [
        | inl d ↦ record {
          at = omega (arith, h.at, size);
          offset = offset;
          entries = e ∷ h.entries;
          index = rw d at h.index ∙ append_assoc c.index (e ∷ []) h.entries;
          indexed = entry (omega (arith, st.base)) at h.indexed;
        }
        | inr d ↦ record {
          at = omega (arith, h.at, size);
          offset = offset;
          entries = h.entries;
          index = rw d at h.index;
          indexed = skip h.indexed;
        }
      ]

  pub scan_loop-Chain :
      (bs : List Bytes) (fuel : ℕ) (pre torn : Bytes) (c : Scan) (o next : ℕ)
      → Chain o bs next
      → s.log_file ≡ pre ++ (flatten bs ++ torn)
      → s.log_size ≡ length s.log_file
      → s.base_offset ≤ o
      → next ≤ s.base_offset + 2 ^ 31
      → next < 2 ^ 63
      → c.pos ≡ length pre
      → length bs < fuel
      → ((more : ℕ) (end : Scan)
          → end.pos ≡ length pre + length (flatten bs)
          → scan_loop (suc more) s end ≡ stopped end)
      → (c' : Scan) × (scan_loop fuel s c ≡ stopped c') × Passed s o (length pre) next bs c c'
  unfolding scan_loop scan_round
  scan_loop-Chain bs zero pre torn c o next ch file size low span top at f ends =
      absurd (omega arith)
  scan_loop-Chain [] (suc fuel) pre torn c o next ch file size low span top at f ends = (
    c,
    ends fuel c (omega arith),
    record {
      at = omega arith;
      offset = refl;
      entries = [];
      index = sym (append-nil c.index);
      indexed = stop;
    },
  )
  scan_loop-Chain (b ∷ bs) (suc fuel) pre torn c o next ch file size low span top at f ends =
      let rest = flatten bs ++ torn in
      let h = ch.0.batch in
      let file_at : s.log_file ≡ pre ++ (b ++ rest) =
        file ∙ ap (λ t. pre ++ t) (append_assoc b (flatten bs) torn) in
      let file_next : s.log_file ≡ (pre ++ b) ++ rest = file_at ∙ sym (append_assoc pre b rest) in
      let k : length (pre ++ b) ≡ length pre + length b = length-append pre b in
      let total : s.log_size ≡ length pre + (length b + length rest) =
        size
        ∙ ap length file_at
        ∙ length-append pre (b ++ rest)
        ∙ omega (arith, length-append b rest) in
      let l = length-append b (flatten bs) in
      let c1 = pass s c (read_header b) (length b) in
      let at1 : c1.pos ≡ length (pre ++ b) = omega arith in
      let (c', run, passed) =
        scan_loop-Chain bs fuel (pre ++ b) torn c1 (o + delta b + 1) next ch.1 file_next size
          (omega arith) span top at1 (omega arith)
          (λ more end e. ends more end (omega (arith, e, k, l))) in
      let inside : lt_i32 c.pos s.log_size ≡ true = ground (arith, h.long) in
      let long : lt_i32 (sub32 s.log_size c.pos) 61 ≡ false = ground (arith, h.long) in
      let whole : lt_i32 s.log_size (add32 c.pos (length b)) ≡ false = ground arith in
      let run1 : scan_loop (suc fuel) s c ≡ scan_loop fuel s c1 =
        rw
          (
            inside,
            long,
            ap (parse_at s) at ∙ parse_at-IsBatch s pre b rest file_at (omega arith) h,
            total_size-i32 b h,
            whole,
          )
          refl in
      (
        c',
        run1 ∙ run,
        pass-StartsAt c b bs o (length pre) next ch.0 ch.1 low span top at (omega arith) c'
            (subst (λ n. Passed s (o + delta b + 1) n next bs c1 c') k passed),
      )
