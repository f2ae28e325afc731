-- ===== src/Tests/Records.antt =====
-- internal/record/batch.go: concrete batches and record sets.
use mq.Common.{ℕ, ◌+◌, ◌≡◌, refl, some, List, [], ◌∷◌, ◌++◌, Bytes, arith, replicate, flatten, All}
use mq.Record.Batch.{assign_offset}
use mq.Record.Iterate.{Answer, go_on, done, failed, header, iterate}
use mq.Record.Batch.{too_short}
use mq.Record.WellFormed.{IsBatch}
use mq.Record.Patch.{assign_offset-IsAssigned, IsAssigned, patched}
use mq.Record.Iterate.Walks.{visit_all}
use mq.Record.Iterate.Ends.{IsTorn, iterate-visit_all, iterate-IsTorn}

-- A batch of two records from the offset `o` on, for o below 256.
abbrev pub batch_at : ℕ → Bytes
batch_at o =
    replicate 7 0
    ++ ((o ∷ 0 ∷ 0 ∷ 0 ∷ 49 ∷ 0 ∷ 0 ∷ 0 ∷ 0 ∷ 2 ∷ [])
        ++ (replicate 6 0 ++ ((0 ∷ 0 ∷ 0 ∷ 1 ∷ []) ++ (replicate 30 0 ++ (0 ∷ 0 ∷ 0 ∷ 2 ∷ [])))))

pub batch_at-IsBatch : (o : ℕ) → IsBatch (batch_at o)
batch_at-IsBatch o = record { long = omega arith; sized = refl; small = omega arith; magic = refl }

abbrev pub two_batches : List Bytes
two_batches = batch_at 0 ∷ batch_at 2 ∷ []

pub two_batches-All : All IsBatch two_batches
two_batches-All = (batch_at-IsBatch 0, (batch_at-IsBatch 2, tt))

-- A callback that counts.
abbrev count : Bytes → ℕ → Answer ℕ ℕ
count b n = go_on (n + 1)

abbrev pub front_of_batch : Bytes
front_of_batch = replicate 7 0 ++ (4 ∷ 0 ∷ 0 ∷ 0 ∷ 49 ∷ [])

abbrev pub rest_of_batch : Bytes
rest_of_batch =
    (0 ∷ 0 ∷ 0 ∷ 0 ∷ 2 ∷ [])
    ++ (replicate 6 0 ++ ((0 ∷ 0 ∷ 0 ∷ 1 ∷ []) ++ (replicate 30 0 ++ (0 ∷ 0 ∷ 0 ∷ 2 ∷ []))))

pub front_of_batch-IsTorn : IsTorn front_of_batch rest_of_batch
front_of_batch-IsTorn = record {
  some_bytes = omega arith;
  cut = omega arith;
  whole = batch_at-IsBatch 4;
}

iterate_example : iterate count (flatten two_batches) 0 ≡ visit_all count two_batches 0 0 done
iterate_example = iterate-visit_all count two_batches 0 two_batches-All (omega arith)

iterate_torn_example :
    iterate count (flatten two_batches ++ front_of_batch) 0
    ≡ visit_all count two_batches 0 0 (λ c n. failed c (header too_short) n)
iterate_torn_example =
    iterate-IsTorn count two_batches front_of_batch rest_of_batch 0 two_batches-All
      front_of_batch-IsTorn (omega arith)

assign_offset_example :
    (assign_offset (batch_at 0) 1000 ≡ some (patched (batch_at 0) 1000))
    × IsAssigned (batch_at 0) 1000 (patched (batch_at 0) 1000)
assign_offset_example =
    assign_offset-IsAssigned (batch_at 0) 1000 (batch_at-IsBatch 0) (omega arith)
