-- ===== src/Storage/Index/Floor.antt =====
-- internal/storage/index.go (floorPosition): the binary search against a scan of the whole index.
use mq.Common.{
  ℕ, zero, suc, ◌+◌, ◌-◌, ◌/◌, ◌≤◌, ◌<◌, ◌≡◌, refl, sym, ◌∙◌, Bool, true, false, List, [], ◌∷◌,
  Int32, arith, length, get_or, ltb, le_i32, if◌then◌else◌, Bool-cases, inl, inr, All,
}
use mq.Storage.Index.{IndexEntry, no_entry, floor_loop, floor_position}

-- The position of the last entry at or below the target, and `pos` where there is none.
unfoldable pub floor_scan : List IndexEntry → Int32 → Int32 → Int32
floor_scan [] target pos = pos
floor_scan (e ∷ es) target pos =
    floor_scan es target (if le_i32 e.rel_offset target then e.position else pos)

-- Relative offsets do not fall, as signed numbers.
abbrev pub IsSorted : List IndexEntry → Type 0
IsSorted [] = Unit {0}
IsSorted (e ∷ es) = All (λ f. le_i32 e.rel_offset f.rel_offset ≡ true) es × IsSorted es

fits_at : List IndexEntry → Int32 → ℕ → Bool
fits_at es target i = le_i32 (get_or es i no_entry).rel_offset target

-- The position before place `k`.
before : List IndexEntry → ℕ → Int32 → Int32
before es zero pos = pos
before [] (suc k) pos = pos
before (e ∷ es) (suc k) pos = before es k e.position

-- Entries below `k` fit, and those from `k` on do not.
record Splits (es : List IndexEntry) (target : Int32) (k : ℕ) : Type 0 where
  low : (i : ℕ) → i < k → fits_at es target i ≡ true
  high : (i : ℕ) → k ≤ i → i < length es → fits_at es target i ≡ false

scan_none :
    (es : List IndexEntry) (target pos : Int32)
    → ((i : ℕ) → i < length es → fits_at es target i ≡ false)
    → floor_scan es target pos ≡ pos
unfolding floor_scan fits_at
scan_none [] target pos h = refl
scan_none (e ∷ es) target pos h =
    rw (h 0 (omega arith)) (scan_none es target pos (λ i l. h (suc i) (omega arith)))

scan-before :
    (es : List IndexEntry) (target : Int32) (k : ℕ) (pos : Int32)
    → k ≤ length es
    → Splits es target k
    → floor_scan es target pos ≡ before es k pos
unfolding floor_scan fits_at before
scan-before es target zero pos l h = scan_none es target pos (λ i m. h.high i (omega arith) m)
scan-before [] target (suc k) pos l h = refl
scan-before (e ∷ es) target (suc k) pos l h = rw (h.low 0 (omega arith)) (
    scan-before es target k e.position (omega arith) (record {
      low = λ i m. h.low (suc i) (omega arith);
      high = λ i m n. h.high (suc i) (omega arith) (omega arith);
    }))

before-suc :
    (es : List IndexEntry) (k : ℕ) (pos : Int32)
    → k < length es
    → before es (suc k) pos ≡ (get_or es k no_entry).position
unfolding before
before-suc [] k pos h = elim h [ ]
before-suc (e ∷ es) zero pos h = refl
before-suc (e ∷ es) (suc k) pos h = before-suc es k e.position (omega arith)

All-get_or :
    (P : IndexEntry → Type 0) (es : List IndexEntry) (i : ℕ)
    → All P es
    → i < length es
    → P (get_or es i no_entry)
All-get_or P [] i h l = elim l [ ]
All-get_or P (e ∷ es) zero h l = h.0
All-get_or P (e ∷ es) (suc i) h l = All-get_or P es i h.1 (omega arith)

-- In a sorted index a later entry fits only if the earlier ones do.
fits_down :
    (es : List IndexEntry) (target : Int32) (i j : ℕ)
    → IsSorted es
    → i ≤ j
    → j < length es
    → fits_at es target j ≡ true
    → fits_at es target i ≡ true
unfolding fits_at
fits_down [] target i j s l m h = elim m [ ]
fits_down (e ∷ es) target zero zero s l m h = h
fits_down (e ∷ es) target zero (suc j) s l m h =
    ground (arith, All-get_or (λ f. le_i32 e.rel_offset f.rel_offset ≡ true) es j s.0 (omega arith))
fits_down (e ∷ es) target (suc i) zero s l m h = absurd (omega arith)
fits_down (e ∷ es) target (suc i) (suc j) s l m h =
    fits_down es target i j s.1 (omega arith) (omega arith) h

not_fit :
    (es : List IndexEntry) (target : Int32) (i j : ℕ)
    → IsSorted es
    → i ≤ j
    → j < length es
    → fits_at es target i ≡ false
    → fits_at es target j ≡ false
not_fit es target i j s l m h = elim (Bool-cases (fits_at es target j)) [
  | inl yes_j ↦ cc (fits_down es target i j s l m yes_j)
  | inr no_j ↦ no_j
]

-- The loop keeps: what lies below `lo` fits, what lies from `above` on does not, and `pos` is the
-- position before `lo`.
loop-scan :
    (fuel : ℕ) (es : List IndexEntry) (target : Int32) (lo above : ℕ) (pos : Int32)
    → IsSorted es
    → lo ≤ above
    → above ≤ length es
    → above - lo < fuel
    → ((i : ℕ) → i < lo → fits_at es target i ≡ true)
    → ((i : ℕ) → above ≤ i → i < length es → fits_at es target i ≡ false)
    → pos ≡ before es lo 0
    → floor_loop fuel es target lo above pos ≡ floor_scan es target 0
unfolding floor_loop fits_at
loop-scan zero es target lo above pos s l m f low high e = absurd (omega arith)
loop-scan (suc fuel) es target lo above pos s l m f low high e = elim (Bool-cases (ltb lo above)) [
  | inr ended ↦
      let k : lo ≡ above = ground arith in
      rw ended (
        e
        ∙ sym (
            scan-before es target lo 0 (omega arith)
              (record { low = low; high = λ i n. high i (omega arith) })))
  | inl going ↦
      let mid = (lo + above - 1) / 2 in
      let lower : lo ≤ mid = ground arith in
      let upper : mid < above = ground arith in
      elim (Bool-cases (fits_at es target mid)) [
        | inl fit ↦
            rw (going, fit)
              (loop-scan fuel es target (mid + 1) above (get_or es mid no_entry).position s
                (omega arith) m (omega arith)
                (λ i n. fits_down es target i mid s (omega arith) (omega arith) fit) high
                (let e' : mid + 1 ≡ suc mid = omega arith in
                  rw e' (sym (before-suc es mid 0 (omega arith)))))
        | inr over ↦
            rw (going, over)
              (loop-scan fuel es target lo mid pos s lower (omega arith) (omega arith) low
                (λ i n k. not_fit es target mid i s n k over) e)
      ]
]

-- On an index whose relative offsets do not fall, the binary search returns the position of the
-- last entry at or below the target, and 0 where there is none; the search ends within its bound.
pub floor_position-floor_scan :
    (es : List IndexEntry) (target : Int32)
    → IsSorted es
    → floor_position es target ≡ floor_scan es target 0
unfolding floor_position before
floor_position-floor_scan es target s =
    loop-scan (suc (length es)) es target 0 (length es) 0 s (omega arith) (omega arith)
      (omega arith) (λ i h. absurd (omega arith)) (λ i h k. absurd (omega arith)) refl
