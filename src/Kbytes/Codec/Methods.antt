-- ===== src/Kbytes/Codec/Methods.antt =====
-- internal/kbytes: what a Writer method writes, the Reader method of that name reads back, and so
-- for sequences of methods.
use mq.Common.{
  ℕ, ◌%◌, ◌^◌, ◌<◌, ◌≡◌, refl, sym, ap, ◌∙◌, Option, none, some, [], ◌∷◌, ◌++◌, Bytes, IsInt16,
  IsInt32, IsInt64, IsByte, arith, append-nil, length, length-append, put16, put32, put64,
  minus_one16, minus_one32,
}
use mathlib.Core.Path.{subst}
use mq.Kbytes.Reader
use mq.Kbytes.Reader.{Reader, Get, ◌>>=◌, pure, new_reader}
use mq.Kbytes.Writer
use mq.Kbytes.Writer.{Writer, Put, ◌>>◌, append, new_writer, finish}
use mq.Kbytes.Codec.Primitives.{
  Reads, Writes, Codec, append-Writes, then-Writes, bind-Decodes, skip-Decodes, Wide, int8-Decodes,
  int16-Decodes, int32-Decodes, int64-Decodes, string-Decodes, some_string-Decodes,
  no_string-Decodes, some-bytes-Decodes, no_bytes-Decodes,
}

pub int8-Codec : (v : ℕ) → IsByte v → Codec (Writer.int8 v) Reader.int8 v
unfolding Writer.int8
int8-Codec v h = record {
  image = (v % 256) ∷ [];
  writes = append-Writes _;
  decodes = int8-Decodes v h;
}

pub int16-Codec : (v : ℕ) → IsInt16 v → Codec (Writer.int16 v) Reader.int16 v
unfolding Writer.int16
int16-Codec v h = record { image = put16 v; writes = append-Writes _; decodes = int16-Decodes v h }

pub int32-Codec : (v : ℕ) → IsInt32 v → Codec (Writer.int32 v) Reader.int32 v
unfolding Writer.int32
int32-Codec v h = record { image = put32 v; writes = append-Writes _; decodes = int32-Decodes v h }

pub int64-Codec : (v : ℕ) → IsInt64 v → Codec (Writer.int64 v) Reader.int64 v
unfolding Writer.int64
int64-Codec v h = record { image = put64 v; writes = append-Writes _; decodes = int64-Decodes v h }

string-Writes : (s : Bytes) → length s < 2 ^ 16 → Writes (Writer.string s) (put16 (length s) ++ s)
unfolding Writer.string Writer.int16
string-Writes s h =
    let e : length s % 2 ^ 16 ≡ length s = omega arith in
    subst (λ n. Writes (append (put16 n) >> append s) (put16 (length s) ++ s)) (sym e)
      (then-Writes _ _ _ _ (append-Writes _) (append-Writes _))

pub string-Codec : (s : Bytes) → length s < 2 ^ 15 → Codec (Writer.string s) Reader.string s
string-Codec s h = record {
  image = put16 (length s) ++ s;
  writes = string-Writes s (omega arith);
  decodes = string-Decodes s h;
}

pub some_string-Codec :
    (s : Bytes)
    → length s < 2 ^ 15
    → Codec (Writer.nullable_string (some s)) Reader.nullable_string (some s)
unfolding Writer.nullable_string
some_string-Codec s h = record {
  image = put16 (length s) ++ s;
  writes = string-Writes s (omega arith);
  decodes = some_string-Decodes s h;
}

-- A string that the writer can put behind an int16 length, or none.
abbrev pub ShortOrNone : Option Bytes → Type 0
ShortOrNone none = Unit
ShortOrNone (some s) = length s < 2 ^ 15

pub nullable_string-Codec :
    (s : Option Bytes) → ShortOrNone s → Codec (Writer.nullable_string s) Reader.nullable_string s
nullable_string-Codec none h = record {
  image = put16 minus_one16 ++ [];
  writes = unfold Writer.nullable_string Writer.int16 in rw append-nil (append-Writes _);
  decodes = no_string-Decodes;
}
nullable_string-Codec (some s) h = some_string-Codec s h

abbrev pub FitsInt32 : Option Bytes → Type 0
FitsInt32 none = Unit
FitsInt32 (some b) = length b < 2 ^ 31

some-bytes-Writes :
    (b : Bytes) → length b < 2 ^ 31 → Writes (Writer.bytes (some b)) (put32 (length b) ++ b)
unfolding Writer.bytes Writer.int32
some-bytes-Writes b h =
    let e : length b % 2 ^ 32 ≡ length b = omega arith in
    subst (λ n. Writes (append (put32 n) >> append b) (put32 (length b) ++ b)) (sym e)
      (then-Writes _ _ _ _ (append-Writes _) (append-Writes _))

pub bytes-Codec : (b : Option Bytes) → FitsInt32 b → Codec (Writer.bytes b) Reader.bytes b
bytes-Codec none h = record {
  image = put32 minus_one32 ++ [];
  writes = unfold Writer.bytes Writer.int32 in rw append-nil (append-Writes _);
  decodes = no_bytes-Decodes;
}
bytes-Codec (some b) h = record {
  image = put32 (length b) ++ b;
  writes = some-bytes-Writes b h;
  decodes = some-bytes-Decodes b h;
}

-- What `p` and then `q` write, `m` and then `f` read.
pub bind-Codec :
    {A B : Type 0} {p q : Put} {m : Get A} {a : A} {b : B} (f : A → Get B)
    → Codec p m a
    → Codec q (f a) b
    → Codec (p >> q) (m >>= f) b
bind-Codec {p = p} {q = q} {m = m} {a = a} {b = b} f c d = record {
  image = c.image ++ d.image;
  writes = then-Writes p q c.image d.image c.writes d.writes;
  decodes = bind-Decodes m f c.image d.image a b c.decodes d.decodes;
}

-- A field that the version leaves out on both sides.
pub skip-Codec :
    {A B : Type 0} {q : Put} {a : A} {b : B} (f : A → Get B)
    → Codec q (f a) b
    → Codec q (pure a >>= f) b
skip-Codec {q = q} {a = a} {b = b} f c = record {
  image = c.image;
  writes = c.writes;
  decodes = skip-Decodes a f c.image b c.decodes;
}

pub int32-Wide : (v : ℕ) → IsInt32 v → Wide (Writer.int32 v) Reader.int32 v
unfolding int32-Codec put32
int32-Wide v h = record { codec = int32-Codec v h; wide = omega arith }

pub int64-Wide : (v : ℕ) → IsInt64 v → Wide (Writer.int64 v) Reader.int64 v
unfolding int64-Codec put64
int64-Wide v h = record { codec = int64-Codec v h; wide = omega arith }

pub string-Wide : (s : Bytes) → length s < 2 ^ 15 → Wide (Writer.string s) Reader.string s
unfolding string-Codec put16
string-Wide s h = record { codec = string-Codec s h; wide = omega arith }

pub bind-Wide :
    {A B : Type 0} {p q : Put} {m : Get A} {a : A} {b : B} (f : A → Get B)
    → Wide p m a
    → Codec q (f a) b
    → Wide (p >> q) (m >>= f) b
unfolding bind-Codec
bind-Wide f c d = record {
  codec = bind-Codec f c.codec d;
  wide = omega (arith, c.wide, length-append c.codec.image d.image);
}

-- The last read, and the value that is built from it.
pub last-Codec :
    {A B : Type 0} {p : Put} {m : Get A} {a : A} (f : A → B)
    → Codec p m a
    → Codec p (m >>= λ x. pure (f x)) (f a)
unfolding ◌>>=◌
last-Codec {p = p} {m = m} {a = a} f c = record {
  image = c.image;
  writes = c.writes;
  decodes = record {
    value = λ r rest h. ap f (c.decodes.value r rest h);
    after = λ r rest h. c.decodes.after r rest h;
  };
}

-- A reader over what a fresh writer wrote: the value, no error, and nothing left.
pub Codec-fresh :
    {A : Type 0} {p : Put} {m : Get A} {a : A}
    → Codec p m a
    → ((m (new_reader (finish (p new_writer)))).0 ≡ a)
      × Reads (m (new_reader (finish (p new_writer)))).1 []
Codec-fresh {p = p} {m = m} {a = a} c =
    let e : finish (p new_writer) ≡ c.image ++ [] =
      c.writes.appends new_writer ∙ sym (append-nil c.image) in
    let h : Reads (new_reader (finish (p new_writer))) (c.image ++ []) = record {
      no_error = refl;
      within = omega arith;
      unread = e;
    } in
    (c.decodes.value _ [] h, c.decodes.after _ [] h)
