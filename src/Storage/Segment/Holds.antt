-- ===== src/Storage/Segment/Holds.antt =====
-- internal/storage/segment.go: what it means that a segment holds a run of batches.
use mq.Common.{
  ℕ, ◌+◌, ◌-◌, ◌^◌, ◌≤◌, ◌<◌, ◌≡◌, true, List, [], ◌∷◌, Bytes, arith, length, take, flatten, All,
  le_i32,
}
use mq.Record.Batch.{read_header, last_offset}
use mq.Record.WellFormed.{IsBatch}
use mq.Storage.Index.{IndexEntry}
use mq.Storage.Index.Floor.{IsSorted}
use mq.Storage.Segment.{Segment}

abbrev pub delta : Bytes → ℕ
delta b = (read_header b).last_offset_delta

-- A whole batch whose records have the offsets from `o` on.
pub record StartsAt (o : ℕ) (b : Bytes) : Type 0 where
  pub batch : IsBatch b
  pub base : (read_header b).base_offset ≡ o
  pub grows : delta b < 2 ^ 31

-- The batches follow one another without a gap, from `o` up to `next`.
abbrev pub Chain : ℕ → List Bytes → ℕ → Type 0
Chain o [] next = o ≡ next
Chain o (b ∷ bs) next = StartsAt o b × Chain (o + delta b + 1) bs next

-- The entries name some of the batches, in order, by their offsets and positions.
pub data Indexed (seg : ℕ) : ℕ → ℕ → List Bytes → List IndexEntry → Type 0 where
  stop : {o pos : ℕ} → Indexed seg o pos [] []
  skip :
      {o pos : ℕ} {b : Bytes} {bs : List Bytes} {es : List IndexEntry}
      → Indexed seg (o + delta b + 1) (pos + length b) bs es
      → Indexed seg o pos (b ∷ bs) es
  entry :
      {o pos : ℕ} {b : Bytes} {bs : List Bytes} {e : IndexEntry} {es : List IndexEntry}
      → e.rel_offset ≡ o - seg
      → e.position ≡ pos
      → Indexed seg (o + delta b + 1) (pos + length b) bs es
      → Indexed seg o pos (b ∷ bs) (e ∷ es)

-- The segment's file begins with the batches, and its index is sound. What a failed write left
-- behind them does not count.
pub record Holds (s : Segment) (bs : List Bytes) (next : ℕ) : Type 0 where
  pub content : take s.log_size s.log_file ≡ flatten bs
  pub size : s.log_size ≡ length (flatten bs)
  pub small : s.log_size < 2 ^ 31
  pub chain : Chain s.base_offset bs next
  pub indexed : Indexed s.base_offset s.base_offset 0 bs s.index
  pub span : next ≤ s.base_offset + 2 ^ 31
  pub offsets : next < 2 ^ 63

pub Chain-le : (o next : ℕ) (bs : List Bytes) → Chain o bs next → o ≤ next
Chain-le o next [] h = omega arith
Chain-le o next (b ∷ bs) h = omega (arith, Chain-le (o + delta b + 1) next bs h.1)

pub Chain-IsBatch : (o next : ℕ) (bs : List Bytes) → Chain o bs next → All IsBatch bs
Chain-IsBatch o next [] h = tt
Chain-IsBatch o next (b ∷ bs) h = (h.0.batch, Chain-IsBatch (o + delta b + 1) next bs h.1)

pub last_offset-StartsAt :
    (o : ℕ) (b : Bytes)
    → StartsAt o b
    → o + delta b < 2 ^ 63
    → last_offset (read_header b) ≡ o + delta b
unfolding last_offset
last_offset-StartsAt o b h l = ground (arith, h.base, h.grows)

-- Every entry is at or above the offset where the batches begin.
entries_above :
    (seg o pos next : ℕ) (bs : List Bytes) (es : List IndexEntry)
    → Indexed seg o pos bs es
    → Chain o bs next
    → seg ≤ o
    → next ≤ seg + 2 ^ 31
    → (low : ℕ) → low ≤ o - seg
    → All (λ (e : IndexEntry). le_i32 low e.rel_offset ≡ true) es
entries_above seg o pos next bs es stop c l s low m = tt
entries_above seg o pos next bs es (skip {b = b} {bs = rest} i) c l s low m =
    entries_above seg (o + delta b + 1) (pos + length b) next rest es i c.1 (omega arith) s low
      (omega arith)
entries_above seg o pos next bs es (entry {b = b} {bs = rest} {e = e} {es = more} r p i) c l s low
      m =
    (
      ground (arith, r, Chain-le (o + delta b + 1) next rest c.1),
      entries_above seg (o + delta b + 1) (pos + length b) next rest more i c.1 (omega arith) s low
          (omega arith),
    )

pub Indexed-IsSorted :
    (seg o pos next : ℕ) (bs : List Bytes) (es : List IndexEntry)
    → Indexed seg o pos bs es
    → Chain o bs next
    → seg ≤ o
    → next ≤ seg + 2 ^ 31
    → IsSorted es
Indexed-IsSorted seg o pos next bs es stop c l s = tt
Indexed-IsSorted seg o pos next bs es (skip {b = b} {bs = rest} i) c l s =
    Indexed-IsSorted seg (o + delta b + 1) (pos + length b) next rest es i c.1 (omega arith) s
Indexed-IsSorted seg o pos next bs es (entry {b = b} {bs = rest} {e = e} {es = more} r p i) c l s =
    (
      entries_above seg (o + delta b + 1) (pos + length b) next rest more i c.1 (omega arith) s
          e.rel_offset (omega arith),
      Indexed-IsSorted seg (o + delta b + 1) (pos + length b) next rest more i c.1 (omega arith) s,
    )
