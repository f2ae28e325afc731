-- ===== src/Common/Words.antt =====
-- Go's machine integers as their two's complement bit patterns, and the big-endian byte order of
-- `encoding/binary`. An int32 is a number below 2 ^ 32, an int64 one below 2 ^ 64.
use Prim.Native.Nat.{ℕ, ◌+◌, ◌-◌, ◌*◌, ◌/◌, ◌%◌, ◌^◌, ◌≤◌, ◌<◌}
use mathlib.Core.Path.{◌≡◌, refl}
use mathlib.Core.Bool.{Bool}
use mathlib.Core.List.{List, [], ◌∷◌, ◌++◌}
use native.Mathlib.Omega.{arith}
use mq.Common.Tests.{ltb, leb, if◌then◌else◌}
use mq.Common.Lists.{length}

abbrev pub Bytes : Type 0
Bytes = List ℕ

abbrev pub IsByte : ℕ → Type 0
IsByte b = b < 256

abbrev pub Int8 : Type 0
Int8 = ℕ

abbrev pub Int16 : Type 0
Int16 = ℕ

abbrev pub Int32 : Type 0
Int32 = ℕ

abbrev pub Int64 : Type 0
Int64 = ℕ

abbrev pub IsInt16 : ℕ → Type 0
IsInt16 v = v < 2 ^ 16

abbrev pub IsInt32 : ℕ → Type 0
IsInt32 v = v < 2 ^ 32

abbrev pub IsInt64 : ℕ → Type 0
IsInt64 v = v < 2 ^ 64

abbrev pub minus_one16 : Int16
minus_one16 = 0xffff

abbrev pub minus_one32 : Int32
minus_one32 = 0xffff_ffff

abbrev pub minus_one64 : Int64
minus_one64 = 0xffff_ffff_ffff_ffff

-- x < 0
abbrev pub is_neg16 : Int16 → Bool
is_neg16 v = leb (2 ^ 15) v

abbrev pub is_neg32 : Int32 → Bool
is_neg32 v = leb (2 ^ 31) v

abbrev pub is_neg64 : Int64 → Bool
is_neg64 v = leb (2 ^ 63) v

-- Signed `<` and `<=`: both sides are moved up by half the range.
abbrev pub lt_i16 : Int16 → Int16 → Bool
lt_i16 a b = ltb ((a + 2 ^ 15) % 2 ^ 16) ((b + 2 ^ 15) % 2 ^ 16)

abbrev pub le_i16 : Int16 → Int16 → Bool
le_i16 a b = leb ((a + 2 ^ 15) % 2 ^ 16) ((b + 2 ^ 15) % 2 ^ 16)

abbrev pub lt_i32 : Int32 → Int32 → Bool
lt_i32 a b = ltb ((a + 2 ^ 31) % 2 ^ 32) ((b + 2 ^ 31) % 2 ^ 32)

abbrev pub le_i32 : Int32 → Int32 → Bool
le_i32 a b = leb ((a + 2 ^ 31) % 2 ^ 32) ((b + 2 ^ 31) % 2 ^ 32)

abbrev pub lt_i64 : Int64 → Int64 → Bool
lt_i64 a b = ltb ((a + 2 ^ 63) % 2 ^ 64) ((b + 2 ^ 63) % 2 ^ 64)

abbrev pub le_i64 : Int64 → Int64 → Bool
le_i64 a b = leb ((a + 2 ^ 63) % 2 ^ 64) ((b + 2 ^ 63) % 2 ^ 64)

abbrev pub add32 : Int32 → Int32 → Int32
add32 a b = (a + b) % 2 ^ 32

abbrev pub sub32 : Int32 → Int32 → Int32
sub32 a b = (a + 2 ^ 32 - b) % 2 ^ 32

abbrev pub add64 : Int64 → Int64 → Int64
add64 a b = (a + b) % 2 ^ 64

abbrev pub sub64 : Int64 → Int64 → Int64
sub64 a b = (a + 2 ^ 64 - b) % 2 ^ 64

-- int32(x) of a wider x
abbrev pub to_i32 : ℕ → Int32
to_i32 v = v % 2 ^ 32

-- int64(x) of an int32 x
abbrev pub sext32 : Int32 → Int64
sext32 v = if is_neg32 v then v + (2 ^ 64 - 2 ^ 32) else v

-- binary.BigEndian.Uint16, Uint32 and Uint64 of the first bytes. The callers check the length, or
-- panic; a short slice reads as 0 here.
abbrev pub be16 : Bytes → ℕ
be16 (a ∷ b ∷ _) = a * 2 ^ 8 + b
be16 _ = 0

abbrev pub be32 : Bytes → ℕ
be32 (a ∷ b ∷ c ∷ d ∷ _) = a * 2 ^ 24 + b * 2 ^ 16 + c * 2 ^ 8 + d
be32 _ = 0

abbrev pub be64 : Bytes → ℕ
be64 (a ∷ b ∷ c ∷ d ∷ e ∷ f ∷ g ∷ h ∷ _) =
    a * 2 ^ 56 + b * 2 ^ 48 + c * 2 ^ 40 + d * 2 ^ 32 + e * 2 ^ 24 + f * 2 ^ 16 + g * 2 ^ 8 + h
be64 _ = 0

-- binary.BigEndian.AppendUint16, AppendUint32 and AppendUint64
unfoldable pub put16 : ℕ → Bytes
put16 v = (v / 2 ^ 8 % 256) ∷ (v % 256) ∷ []

unfoldable pub put32 : ℕ → Bytes
put32 v = (v / 2 ^ 24 % 256) ∷ (v / 2 ^ 16 % 256) ∷ (v / 2 ^ 8 % 256) ∷ (v % 256) ∷ []

unfoldable pub put64 : ℕ → Bytes
unfolding put32
put64 v = put32 (v / 2 ^ 32) ++ put32 v

pub be16-put16 : (v : ℕ) (rest : Bytes) → IsInt16 v → be16 (put16 v ++ rest) ≡ v
unfolding put16
be16-put16 v rest h = omega arith

pub be32-put32 : (v : ℕ) (rest : Bytes) → IsInt32 v → be32 (put32 v ++ rest) ≡ v
unfolding put32
be32-put32 v rest h = omega arith

pub be64-put64 : (v : ℕ) (rest : Bytes) → IsInt64 v → be64 (put64 v ++ rest) ≡ v
unfolding put64
be64-put64 v rest h = omega arith

pub length-put16 : (v : ℕ) → length (put16 v) ≡ 2
unfolding put16
length-put16 v = refl

pub length-put32 : (v : ℕ) → length (put32 v) ≡ 4
unfolding put32
length-put32 v = refl

pub length-put64 : (v : ℕ) → length (put64 v) ≡ 8
unfolding put64
length-put64 v = refl

pub be32-append : (xs ys : Bytes) → 4 ≤ length xs → be32 (xs ++ ys) ≡ be32 xs
be32-append (a ∷ b ∷ c ∷ d ∷ xs) ys h = refl
be32-append _ ys h = absurd (omega arith)

pub be64-append : (xs ys : Bytes) → 8 ≤ length xs → be64 (xs ++ ys) ≡ be64 xs
be64-append (a ∷ b ∷ c ∷ d ∷ e ∷ f ∷ g ∷ h ∷ xs) ys p = refl
be64-append _ ys p = absurd (omega arith)
