-- ===== src/Record/Iterate/Walks.antt =====
-- internal/record/batch.go (Iterate) against a plain recursion over the list of batches.
use mq.Common.{
  ℕ, suc, ◌+◌, ◌-◌, ◌^◌, ◌≤◌, ◌<◌, ◌≡◌, ap, List, [], ◌∷◌, ◌++◌, Bytes, arith, append_assoc, length,
  flatten, All, length-append, drop-length, take-length, le→not_ltb, lt→ltb, lt→not_leb,
}
use mathlib.Core.Path.{subst₂, fun_ext}
use mq.Record.WellFormed.{IsBatch, parse_header-IsBatch, total_size-IsBatch, length-le-flatten}
use mq.Record.Iterate.{Answer, Walk, after, iterate_loop, iterate}

module _ {S E : Type 0} (fn : Bytes → S → Answer S E) where
  -- The batches in order, and what happens behind the last.
  unfoldable pub visit_all : List Bytes → ℕ → S → (ℕ → S → Walk S E) → Walk S E
  visit_all [] consumed s end = end consumed s
  visit_all (b ∷ bs) consumed s end =
      after consumed (fn b s) (λ s'. visit_all bs (consumed + length b) s' end)

  -- One round on a batch that stands at `length pre`.
  iterate_loop-IsBatch :
      (fuel : ℕ) (pre b rest : Bytes) (s : S)
      → IsBatch b
      → length (pre ++ (b ++ rest)) < 2 ^ 63
      → iterate_loop fn (suc fuel) (pre ++ (b ++ rest)) (length pre) s
        ≡ after
            (length pre)
            (fn b s)
            (iterate_loop fn fuel (pre ++ (b ++ rest)) (length pre + length b))
  unfolding iterate_loop
  iterate_loop-IsBatch fuel pre b rest s h fits =
      let l : length (pre ++ (b ++ rest)) ≡ length pre + (length b + length rest) =
        omega (arith, length-append pre (b ++ rest), length-append b rest) in
      rw (
        lt→ltb (length pre) (length (pre ++ (b ++ rest))) (omega (arith, h.long)),
        drop-length pre (b ++ rest),
        parse_header-IsBatch b rest h,
        total_size-IsBatch b h,
        lt→not_leb (length b) (2 ^ 63) (omega arith),
        le→not_ltb (length (pre ++ (b ++ rest))) (length pre + length b) (omega arith),
        drop-length pre (b ++ rest),
        take-length b rest,
      )

  moved :
      (pre b rest : Bytes) (P : Bytes → ℕ → Type 0)
      → P ((pre ++ b) ++ rest) (length (pre ++ b))
      → P (pre ++ (b ++ rest)) (length pre + length b)
  moved pre b rest P h = subst₂ P (append_assoc pre b rest) (length-append pre b) h

  -- On whole batches the loop is the recursion, up to where the batches end.
  iterate_loop-visit_all :
      (bs : List Bytes) (fuel : ℕ) (pre tail : Bytes) (s : S)
      → All IsBatch bs
      → length (pre ++ (flatten bs ++ tail)) < 2 ^ 63
      → iterate_loop fn (length bs + fuel) (pre ++ (flatten bs ++ tail)) (length pre) s
        ≡ visit_all bs (length pre) s (iterate_loop fn fuel (pre ++ (flatten bs ++ tail)))
  unfolding visit_all
  iterate_loop-visit_all [] fuel pre tail s h fits = let e : 0 + fuel ≡ fuel = omega arith in rw e
  iterate_loop-visit_all (b ∷ bs) fuel pre tail s h fits =
      let rest = flatten bs ++ tail in
      let e : (b ++ flatten bs) ++ tail ≡ b ++ rest = append_assoc b (flatten bs) tail in
      let n : suc (length bs) + fuel ≡ suc (length bs + fuel) = omega arith in
      let fits' = rw e at fits in
      let joined_fits : length ((pre ++ b) ++ rest) < 2 ^ 63 = rw (append_assoc pre b rest) fits' in
      rw (n, e, iterate_loop-IsBatch (length bs + fuel) pre b rest s h.0 fits')
        (ap (after (length pre) (fn b s)) (
          fun_ext λ s'.
            moved pre b rest
              (λ set at.
                iterate_loop fn (length bs + fuel) set at s'
                ≡ visit_all bs at s' (iterate_loop fn fuel set))
              (iterate_loop-visit_all bs fuel (pre ++ b) tail s' h.1 joined_fits)))

  -- The loop with the fuel of `iterate`, up to the end of the batches.
  pub iterate-visit_all_then :
      (bs : List Bytes) (tail : Bytes) (s : S)
      → All IsBatch bs
      → length (flatten bs ++ tail) < 2 ^ 63
      → iterate fn (flatten bs ++ tail) s
        ≡ visit_all bs 0 s
            (iterate_loop fn (suc (length (flatten bs ++ tail) - length bs)) (flatten bs ++ tail))
  unfolding iterate
  iterate-visit_all_then bs tail s h fits =
      let set = flatten bs ++ tail in
      let l : length bs ≤ length set =
        omega (arith, length-le-flatten bs h, length-append (flatten bs) tail) in
      let e : suc (length set) ≡ length bs + suc (length set - length bs) = omega arith in
      rw e (iterate_loop-visit_all bs (suc (length set - length bs)) [] tail s h fits)
