-- ===== src/Record/Iterate/Ends.antt =====
-- internal/record/batch.go (Iterate): where a walk over whole batches ends.
use mq.Common.{
  ℕ, suc, ◌+◌, ◌^◌, ◌≤◌, ◌<◌, ◌≡◌, sym, ap, ◌∙◌, List, [], ◌∷◌, ◌++◌, Bytes, arith, append-nil,
  length, drop, flatten, All, length-append, drop-length, le→not_ltb, lt→ltb, lt→not_leb, ltb,
  get_or, ok, err, Bool-cases, inl, inr, ◌⊎◌,
}
use mathlib.Core.Path.{fun_ext}
use mq.Record.Batch.{too_short, parse_header, read_header, total_size}
use mq.Record.WellFormed.{IsBatch, total_size-IsBatch, read_header-append, get_or-append}
use mq.Record.Iterate.{Answer, Walk, done, failed, header, after, iterate_loop, iterate}
use mq.Record.Iterate.Walks.{visit_all, iterate-visit_all_then}

-- The front of a batch whose last bytes are missing.
pub record IsTorn (tail missing : Bytes) : Type 0 where
  pub some_bytes : 1 ≤ length tail
  pub cut : 1 ≤ length missing
  pub whole : IsBatch (tail ++ missing)

-- A header that is whole is the header of the batch.
pub header-IsTorn :
    (tail missing : Bytes)
    → IsTorn tail missing
    → 61 ≤ length tail
    → (get_or tail 16 0 ≡ 2) × (total_size (read_header tail) ≡ length tail + length missing)
header-IsTorn tail missing h n =
    let e : read_header (tail ++ missing) ≡ read_header tail = read_header-append tail missing n in
    (
      sym (get_or-append 16 tail missing 0 (omega arith)) ∙ h.whole.magic,
      ap total_size (sym e)
          ∙ total_size-IsBatch (tail ++ missing) h.whole
          ∙ length-append tail missing,
    )

module _ {S E : Type 0} (fn : Bytes → S → Answer S E) where
  visit_all-end :
      (bs : List Bytes) (c : ℕ) (s : S) (p q : ℕ → S → Walk S E)
      → ((s' : S) → p (c + length (flatten bs)) s' ≡ q (c + length (flatten bs)) s')
      → visit_all fn bs c s p ≡ visit_all fn bs c s q
  unfolding visit_all
  visit_all-end [] c s p q h = let e : c + 0 ≡ c = omega arith in rw e at (h s)
  visit_all-end (b ∷ bs) c s p q h = ap (after c (fn b s)) (
      fun_ext λ s'. visit_all-end bs (c + length b) s' p q λ x.
        let e : c + length (b ++ flatten bs) ≡ c + length b + length (flatten bs) =
          omega (arith, length-append b (flatten bs)) in
        rw e at (h x))

  at_end :
      (fuel : ℕ) (set : Bytes) (c : ℕ) (s : S)
      → c ≡ length set
      → iterate_loop fn (suc fuel) set c s ≡ done c s
  unfolding iterate_loop
  at_end fuel set c s e = rw (le→not_ltb c (length set) (omega arith))

  -- A record set of whole batches: Iterate hands over every batch in order, each exactly as it
  -- stands, stops where the callback does, and otherwise ends with all bytes consumed.
  pub iterate-visit_all :
      (bs : List Bytes) (s : S)
      → All IsBatch bs
      → length (flatten bs) < 2 ^ 63
      → iterate fn (flatten bs) s ≡ visit_all fn bs 0 s done
  iterate-visit_all bs s h fits =
      let e : flatten bs ++ [] ≡ flatten bs = append-nil (flatten bs) in
      let walk = rw e at (iterate-visit_all_then fn bs [] s h (rw e fits)) in
      walk ∙ visit_all-end bs 0 s _ done (λ s'. at_end _ (flatten bs) _ s' (omega arith))

  parse_header-IsTorn :
      (tail missing : Bytes)
      → IsTorn tail missing
      → (parse_header tail ≡ err too_short)
        ⊎ ((parse_header tail ≡ ok (read_header tail))
            × (total_size (read_header tail) ≡ length tail + length missing))
  unfolding parse_header
  parse_header-IsTorn tail missing h = elim (Bool-cases (ltb (length tail) 61)) [
    | inl short ↦ inl (rw short)
    | inr long ↦
        let (m, total) = header-IsTorn tail missing h (ground arith) in
        inr (rw long (unfold read_header in rw m), total)
  ]

  at_torn :
      (fuel : ℕ) (front tail missing : Bytes) (c : ℕ) (s : S)
      → IsTorn tail missing
      → c ≡ length front
      → length (front ++ tail) + length missing < 2 ^ 63
      → iterate_loop fn (suc fuel) (front ++ tail) c s ≡ failed c (header too_short) s
  unfolding iterate_loop
  at_torn fuel front tail missing c s h e fits =
      let l : length (front ++ tail) ≡ length front + length tail = length-append front tail in
      let at_tail : drop c (front ++ tail) ≡ tail = rw e (drop-length front tail) in
      elim (parse_header-IsTorn tail missing h) [
        | inl p ↦ rw (lt→ltb c (length (front ++ tail)) (omega (arith, h.some_bytes)), at_tail, p)
        | inr (p, n) ↦ rw (
          lt→ltb c (length (front ++ tail)) (omega (arith, h.some_bytes)),
          at_tail,
          p,
          n,
          lt→not_leb (length tail + length missing) (2 ^ 63) (omega arith),
          lt→ltb (length (front ++ tail)) (c + (length tail + length missing))
              (omega (arith, h.cut)),
        )
      ]

  -- A record set that ends in a torn batch, one with some but not all of its bytes: Iterate hands
  -- over the whole batches before it as it does without it, and then returns ErrTooShort with
  -- exactly those batches consumed.
  pub iterate-IsTorn :
      (bs : List Bytes) (tail missing : Bytes) (s : S)
      → All IsBatch bs
      → IsTorn tail missing
      → length (flatten bs ++ tail) + length missing < 2 ^ 63
      → iterate fn (flatten bs ++ tail) s
        ≡ visit_all fn bs 0 s (λ c s'. failed c (header too_short) s')
  iterate-IsTorn bs tail missing s h torn fits =
      iterate-visit_all_then fn bs tail s h (omega arith)
      ∙ visit_all-end bs 0 s _ _
          (λ s'. at_torn _ (flatten bs) tail missing _ s' torn (omega arith) fits)
