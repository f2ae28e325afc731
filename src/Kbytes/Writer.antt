-- ===== src/Kbytes/Writer.antt =====
-- internal/kbytes/writer.go. A method is a function from the writer to the writer after it.
use mq.Common.{
  ℕ, ◌+◌, ◌%◌, ◌^◌, Bool, true, false, Option, none, some, List, [], ◌∷◌, ◌++◌, Bytes, Int8, Int16,
  Int32, Int64, minus_one16, minus_one32, length, take, drop, put16, put32, put64,
}

pub record Writer : Type 0 where
  pub buf : Bytes

abbrev pub Put : Type 0
Put = Writer → Writer

infixl 5 ◌>>◌
abbrev pub ◌>>◌ : Put → Put → Put
◌>>◌ p q w = q (p w)

-- A statement that is skipped.
abbrev pub skip : Put
skip w = w

abbrev pub new_writer : Writer
new_writer = record { buf = [] }

unfoldable pub append : Bytes → Put
append b w = record { buf = w.buf ++ b }

unfoldable pub int8 : Int8 → Put
int8 v = append ((v % 256) ∷ [])

unfoldable pub int16 : Int16 → Put
int16 v = append (put16 v)

unfoldable pub int32 : Int32 → Put
int32 v = append (put32 v)

unfoldable pub int64 : Int64 → Put
int64 v = append (put64 v)

unfoldable pub bool : Bool → Put
bool true = int8 1
bool false = int8 0

-- int16(len(s)) keeps the low 16 bits
unfoldable pub string : Bytes → Put
string s = do int16 (length s % 2 ^ 16); append s

unfoldable pub nullable_string : Option Bytes → Put
nullable_string none = int16 minus_one16
nullable_string (some s) = string s

unfoldable pub bytes : Option Bytes → Put
bytes none = int32 minus_one32
bytes (some b) = do int32 (length b % 2 ^ 32); append b

unfoldable pub array_len : ℕ → Put
array_len n = int32 (n % 2 ^ 32)

unfoldable pub raw : Bytes → Put
raw b = append b

abbrev pub finish : Writer → Bytes
finish w = w.buf

-- A slice w.buf[off:off+4] past the end panics in Go; the callers patch what they wrote.
unfoldable pub patch_int32 : ℕ → Int32 → Put
patch_int32 off v w = record { buf = take off w.buf ++ put32 v ++ drop (off + 4) w.buf }

-- for _, x := range xs { ... }
unfoldable pub for_each : {A : Type 0} → List A → (A → Put) → Put
for_each [] f w = w
for_each (x ∷ xs) f w = for_each xs f (f x w)

-- w.ArrayLen(len(xs)) and the elements
unfoldable pub array : {A : Type 0} → List A → (A → Put) → Put
array xs f = do array_len (length xs); for_each xs f
