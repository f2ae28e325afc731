-- ===== src/Storage/Object/Log/Budget.antt =====
-- internal/storage/object/retention.go: retention brings a partition within its budget, and drops no
-- more than that takes.
use mq.Common.{
  ℕ, zero, suc, refl, ap, ◌+◌, ◌^◌, ◌<◌, ◌≤◌, ◌≡◌, ◌⊎◌, inl, inr, true, false, ◌&&◌, ◌||◌, List, [],
  ◌∷◌, Int64, length, drop, lt_i64, le_i64, sub64, arith, Bool-cases,
}
use mq.Common.Keys.{bytes_eq}
use mq.Controller.Fsm.{SegmentRef}
use mq.Storage.Object.Log.{drop_count, sum_sizes}

-- The bytes of some references, without a wrap.
abbrev pub total_of : List SegmentRef → ℕ
total_of [] = 0
total_of (r ∷ refs) = r.size + total_of refs

pub drop_count-budget :
    (now max_age max_bytes pending : Int64) (refs : List SegmentRef)
    → 0 < max_bytes
    → max_bytes < 2 ^ 63
    → total_of refs + pending < 2 ^ 63
    → (drop_count now max_age max_bytes (total_of refs + pending) refs ≡ length refs)
      ⊎ (total_of (drop (drop_count now max_age max_bytes (total_of refs + pending) refs) refs)
            + pending
          ≤ max_bytes)
unfolding drop_count
drop_count-budget now max_age max_bytes pending [] on small fits = inl refl
drop_count-budget now max_age max_bytes pending (r ∷ refs) on small fits =
    let total = r.size + total_of refs + pending in
    let expired = lt_i64 0 max_age && lt_i64 max_age (sub64 now r.uploaded_ms) in
    let over_size = lt_i64 0 max_bytes && lt_i64 max_bytes total in
    let less : sub64 total r.size ≡ total_of refs + pending = omega arith in
    elim (Bool-cases (expired || over_size)) [
      | inl e ↦
          rw (e, less)
            (next (drop_count-budget now max_age max_bytes pending refs on small (omega arith)))
      | inr e ↦ rw e (inr (ground arith))
    ]
  where
    next :
        (drop_count now max_age max_bytes (total_of refs + pending) refs ≡ length refs)
          ⊎ (total_of (drop (drop_count now max_age max_bytes (total_of refs + pending) refs) refs)
                + pending
              ≤ max_bytes)
        → (suc (drop_count now max_age max_bytes (total_of refs + pending) refs)
            ≡ suc (length refs))
          ⊎ (total_of (drop (drop_count now max_age max_bytes (total_of refs + pending) refs) refs)
                + pending
              ≤ max_bytes)
    next (inl e) = inl (ap suc e)
    next (inr h) = inr h

pub drop_count-length :
    (now max_age max_bytes total : Int64) (refs : List SegmentRef)
    → drop_count now max_age max_bytes total refs ≤ length refs
unfolding drop_count
drop_count-length now max_age max_bytes total [] = omega arith
drop_count-length now max_age max_bytes total (r ∷ refs) =
    ground (arith, drop_count-length now max_age max_bytes (sub64 total r.size) refs)

-- No reference is dropped once what is left is within the limit.
pub drop_count-needed :
    (now max_age max_bytes pending : Int64) (refs : List SegmentRef) (m : ℕ)
    → le_i64 max_age 0 ≡ true
    → max_bytes < 2 ^ 63
    → total_of refs + pending < 2 ^ 63
    → m < drop_count now max_age max_bytes (total_of refs + pending) refs
    → max_bytes < total_of (drop m refs) + pending
unfolding drop_count
drop_count-needed now max_age max_bytes pending [] m off small fits h = absurd (omega arith)
drop_count-needed now max_age max_bytes pending (r ∷ refs) m off small fits h =
    let total = r.size + total_of refs + pending in
    let expired = lt_i64 0 max_age && lt_i64 max_age (sub64 now r.uploaded_ms) in
    let over_size = lt_i64 0 max_bytes && lt_i64 max_bytes total in
    let young : expired ≡ false = ground arith in
    let less : sub64 total r.size ≡ total_of refs + pending = omega arith in
    elim (Bool-cases over_size) [
      | inl e ↦
          let later : m < suc (drop_count now max_age max_bytes (total_of refs + pending) refs) =
            rw (young, e, less) at h in
          from m e
            (λ k l.
              drop_count-needed now max_age max_bytes pending refs k off small (omega arith) l)
            later
      | inr e ↦ let none_left : m < 0 = rw (young, e) at h in absurd (omega arith)
    ]
  where
    from :
        (m : ℕ)
        → (lt_i64 0 max_bytes && lt_i64 max_bytes (r.size + total_of refs + pending)) ≡ true
        → ((k : ℕ)
            → k < drop_count now max_age max_bytes (total_of refs + pending) refs
            → max_bytes < total_of (drop k refs) + pending)
        → m < suc (drop_count now max_age max_bytes (total_of refs + pending) refs)
        → max_bytes < total_of (drop m (r ∷ refs)) + pending
    from zero e ih l = ground arith
    from (suc m) e ih l = ih m (omega arith)

pub sum_sizes-total_of :
    (refs : List SegmentRef) → total_of refs < 2 ^ 63 → sum_sizes refs ≡ total_of refs
unfolding sum_sizes
sum_sizes-total_of [] h = refl
sum_sizes-total_of (r ∷ refs) h = omega (arith, sum_sizes-total_of refs (omega arith))
