-- ===== src/Record/WellFormed.antt =====
-- internal/record/batch.go: batches whose header fits them, wherever they stand in a record set.
use mq.Common.{
  ℕ, zero, suc, ◌+◌, ◌^◌, ◌≤◌, ◌<◌, ◌≡◌, refl, sym, ap, ◌∙◌, List, [], ◌∷◌, ◌++◌, Bytes, arith,
  length, All, flatten, take, drop, get_or, length-append, length-take, take-append,
  take-append-drop, length-drop, drop-append, be32, be64, be32-append, be64-append, le→not_ltb, ok,
}
use mq.Record.Batch.{read_header, parse_header, total_size}

-- A whole batch of magic 2: its length field counts the bytes behind it.
pub record IsBatch (b : Bytes) : Type 0 where
  pub long : 61 ≤ length b
  pub sized : 12 + be32 (drop 8 b) ≡ length b
  pub small : be32 (drop 8 b) < 2 ^ 31
  pub magic : get_or b 16 0 ≡ 2

module _ {ℓ} {A : Type ℓ} where
  pub get_or-append :
      (n : ℕ) (xs ys : List A) (d : A) → n < length xs → get_or (xs ++ ys) n d ≡ get_or xs n d
  get_or-append n [] ys d h = elim h [ ]
  get_or-append zero (x ∷ xs) ys d h = refl
  get_or-append (suc n) (x ∷ xs) ys d h = get_or-append n xs ys d (omega arith)

pub be32_at :
    (n : ℕ) (b rest : Bytes) → n + 4 ≤ length b → be32 (drop n (b ++ rest)) ≡ be32 (drop n b)
be32_at n b rest h =
    rw (drop-append n b rest (omega arith))
      (be32-append (drop n b) rest (omega (arith, length-drop n b)))

be64_at : (n : ℕ) (b rest : Bytes) → n + 8 ≤ length b → be64 (drop n (b ++ rest)) ≡ be64 (drop n b)
be64_at n b rest h =
    rw (drop-append n b rest (omega arith))
      (be64-append (drop n b) rest (omega (arith, length-drop n b)))

-- The header is read from the first 61 bytes.
pub read_header-append : (b rest : Bytes) → 61 ≤ length b → read_header (b ++ rest) ≡ read_header b
unfolding read_header
read_header-append b rest h = ground (
  arith,
  be64_at 0 b rest (omega arith),
  be32_at 8 b rest (omega arith),
  be32_at 23 b rest (omega arith),
  be64_at 27 b rest (omega arith),
  be64_at 35 b rest (omega arith),
  be32_at 57 b rest (omega arith),
  get_or-append 16 b rest 0 (omega arith),
)

pub parse_header-IsBatch :
    (b rest : Bytes) → IsBatch b → parse_header (b ++ rest) ≡ ok (read_header b)
unfolding parse_header
parse_header-IsBatch b rest h =
    rw
      (
        le→not_ltb (length (b ++ rest)) 61 (omega (arith, h.long, length-append b rest)),
        read_header-append b rest h.long,
      )
      (unfold read_header in rw h.magic)

-- The first 61 bytes are enough.
pub parse_header-front :
    (b rest : Bytes)
    → 61 ≤ length b
    → get_or b 16 0 ≡ 2
    → parse_header (take 61 (b ++ rest)) ≡ ok (read_header b)
unfolding parse_header
parse_header-front b rest long magic =
    let l : length (take 61 b) ≡ 61 = length-take 61 b long in
    let split : take 61 b ++ drop 61 b ≡ b = take-append-drop 61 b in
    let e : read_header (take 61 b) ≡ read_header b =
      sym (read_header-append (take 61 b) (drop 61 b) (omega arith)) ∙ ap read_header split in
    rw (take-append 61 b rest long, le→not_ltb (length (take 61 b)) 61 (omega arith), e)
      (unfold read_header in rw magic)

pub parse_header-take :
    (b rest : Bytes) → IsBatch b → parse_header (take 61 (b ++ rest)) ≡ ok (read_header b)
parse_header-take b rest h = parse_header-front b rest h.long h.magic

pub total_size-IsBatch : (b : Bytes) → IsBatch b → total_size (read_header b) ≡ length b
unfolding total_size read_header
total_size-IsBatch b h = ground (arith, h.sized, h.small)

pub length-le-flatten : (bs : List Bytes) → All IsBatch bs → length bs ≤ length (flatten bs)
length-le-flatten [] h = omega arith
length-le-flatten (b ∷ bs) h =
    omega (arith, h.0.long, length-le-flatten bs h.1, length-append b (flatten bs))
