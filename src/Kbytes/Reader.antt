-- ===== src/Kbytes/Reader.antt =====
-- internal/kbytes/reader.go. A method is a function from the reader to its result and the reader
-- after it. Go strings and byte slices are lists of bytes.
use mq.Common.{
  ℕ, ◌+◌, ◌-◌, Bool, true, false, Option, none, some, List, [], ◌∷◌, Bytes, Int8, Int16, Int32,
  Int64, is_neg16, is_neg32, is_neg64, ltb, if◌then◌else◌, length, take, drop, get_or, be16, be32,
  be64,
}

-- `err` says whether ErrShort is recorded.
pub record Reader : Type 0 where
  pub buf : Bytes
  pub pos : ℕ
  pub err : Bool

abbrev pub Get : Type 0 → Type 0
Get A = Reader → A × Reader

abbrev pub pure : {A : Type 0} → A → Get A
pure a r = (a, r)

infixl 5 ◌>>=◌ ◌>>◌
unfoldable pub ◌>>=◌ : {A B : Type 0} → Get A → (A → Get B) → Get B
◌>>=◌ m f r = f (m r).0 (m r).1

abbrev pub ◌>>◌ : {A B : Type 0} → Get A → Get B → Get B
m >> n = m >>= λ _. n

abbrev pub new_reader : Bytes → Reader
new_reader b = record { buf = b; pos = 0; err = false }

abbrev pub fail : Reader → Reader
fail r = record r { err = true }

-- The count is not negative here: `raw` tests that for its caller, and the other callers did.
-- `r.pos + n` is at most the length of a slice plus 2 ^ 31, so it does not wrap.
unfoldable pub take_bytes : ℕ → Get (Option Bytes)
take_bytes n r =
    if r.err
    then (none, r)
    else if ltb (length r.buf) (r.pos + n)
    then (none, fail r)
    else (some (take n (drop r.pos r.buf)), record r { pos = r.pos + n })

abbrev pub or_zero : (Bytes → ℕ) → Option Bytes → ℕ
or_zero f none = 0
or_zero f (some b) = f b

unfoldable pub int8 : Get Int8
int8 = do b ← take_bytes 1; pure (or_zero (λ b. get_or b 0 0) b)

unfoldable pub int16 : Get Int16
int16 = do b ← take_bytes 2; pure (or_zero be16 b)

unfoldable pub int32 : Get Int32
int32 = do b ← take_bytes 4; pure (or_zero be32 b)

unfoldable pub int64 : Get Int64
int64 = do b ← take_bytes 8; pure (or_zero be64 b)

abbrev pub or_empty : Option Bytes → Bytes
or_empty none = []
or_empty (some b) = b

-- What follows the length; string(b) of a nil slice is "".
abbrev pub string_body : Int16 → Get Bytes
string_body n = if is_neg16 n then pure [] else do b ← take_bytes n; pure (or_empty b)

unfoldable pub string : Get Bytes
string = do n ← int16; string_body n

abbrev pub nullable_string_body : Int16 → Get (Option Bytes)
nullable_string_body n =
    if is_neg16 n then pure none else do b ← take_bytes n; pure (some (or_empty b))

unfoldable pub nullable_string : Get (Option Bytes)
nullable_string = do n ← int16; nullable_string_body n

-- `none` is the nil slice.
abbrev pub bytes_body : Int32 → Get (Option Bytes)
bytes_body n = if is_neg32 n then pure none else take_bytes n

unfoldable pub bytes : Get (Option Bytes)
bytes = do n ← int32; bytes_body n

-- A length past the unread bytes is refused.
unfoldable pub check_len : ℕ → Get ℕ
check_len n r = if ltb (length r.buf - r.pos) n then (0, fail r) else (n, r)

abbrev pub array_len_body : Int32 → Get ℕ
array_len_body n = if is_neg32 n then pure 0 else check_len n

unfoldable pub array_len : Get ℕ
array_len = do n ← int32; array_len_body n

unfoldable pub raw : Int64 → Get (Option Bytes)
raw n r = if r.err then (none, r) else if is_neg64 n then (none, fail r) else take_bytes n r

unfoldable pub remaining : Reader → Option Bytes
remaining r = if r.err then none else some (drop r.pos r.buf)

-- `for i := 0; i < n; i++ { out[i] = elem }` over a slice of length n
unfoldable pub repeat : {A : Type 0} → ℕ → Get A → Get (List A)
repeat ℕ.zero elem r = ([], r)
repeat (ℕ.suc n) elem r =
    let first = elem r in let rest = repeat n elem first.1 in (first.0 ∷ rest.0, rest.1)

unfoldable pub array : {A : Type 0} → Get A → Get (List A)
array elem = do n ← array_len; repeat n elem
