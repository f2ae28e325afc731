-- ===== src/Kbytes/Codec/Primitives.antt =====
-- internal/kbytes: what each Writer method appends, the Reader method of that name takes off.
use mq.Common.{
  ℕ, ◌+◌, ◌%◌, ◌^◌, ◌≤◌, ◌<◌, ◌≡◌, refl, sym, ap, ◌∙◌, false, none, some, [], ◌∷◌, ◌++◌, Bytes,
  IsInt16, IsInt32, IsInt64, IsByte, minus_one16, minus_one32, get_or, lt→not_leb, arith,
  append_assoc, length, drop, length-append, length-drop, take-front, drop-front, drop-drop, be16,
  be32, be64, put16, put32, put64, length-put16, length-put32, length-put64, le→not_ltb,
}
use mathlib.Core.Path.{subst}
use mq.Kbytes.Reader
use mq.Kbytes.Reader.{Reader, Get, or_zero, or_empty, ◌>>=◌, pure, take_bytes, new_reader}
use mq.Kbytes.Writer.{Writer, Put, ◌>>◌, append}

-- The reader has met no error, and `bs` is what it has not read.
pub record Reads (r : Reader) (bs : Bytes) : Type 0 where
  pub no_error : r.err ≡ false
  pub within : r.pos ≤ length r.buf
  pub unread : drop r.pos r.buf ≡ bs

pub record Decodes {A : Type 0} (m : Get A) (bs : Bytes) (a : A) : Type 0 where
  pub value : (r : Reader) (rest : Bytes) → Reads r (bs ++ rest) → (m r).0 ≡ a
  pub after : (r : Reader) (rest : Bytes) → Reads r (bs ++ rest) → Reads (m r).1 rest

pub record Writes (p : Put) (bs : Bytes) : Type 0 where
  pub appends : (w : Writer) → (p w).buf ≡ w.buf ++ bs

-- What `p` writes, `m` reads back as `a`.
pub record Codec {A : Type 0} (p : Put) (m : Get A) (a : A) : Type 0 where
  pub image : Bytes
  pub writes : Writes p image
  pub decodes : Decodes m image a

-- A codec that writes a byte at least.
pub record Wide {A : Type 0} (p : Put) (m : Get A) (a : A) : Type 0 where
  pub codec : Codec p m a
  pub wide : 1 ≤ length codec.image

pub Reads-length : {r : Reader} {bs : Bytes} → Reads r bs → length r.buf ≡ r.pos + length bs
Reads-length {r} h = omega (arith, ap length h.unread, length-drop r.pos r.buf, h.within)

take_bytes-Reads :
    (n : ℕ) (bs rest : Bytes) (r : Reader)
    → length bs ≡ n
    → Reads r (bs ++ rest)
    → take_bytes n r ≡ (some bs, record r { pos = r.pos + n })
unfolding take_bytes
take_bytes-Reads n bs rest r e h = rw (
  h.no_error,
  le→not_ltb (length r.buf) (r.pos + n) (omega (arith, Reads-length h, length-append bs rest)),
  h.unread,
  take-front n bs rest e,
)

advance-Reads :
    (n : ℕ) (bs rest : Bytes) (r : Reader)
    → length bs ≡ n
    → Reads r (bs ++ rest)
    → Reads (record r { pos = r.pos + n }) rest
advance-Reads n bs rest r e h = record {
  no_error = h.no_error;
  within = omega (arith, Reads-length h, length-append bs rest);
  unread = rw (← drop-drop r.pos n r.buf, h.unread, drop-front n bs rest e);
}

pub take_bytes-Decodes : (n : ℕ) (bs : Bytes) → length bs ≡ n → Decodes (take_bytes n) bs (some bs)
take_bytes-Decodes n bs e = record {
  value = λ r rest h. ap (λ p. p.0) (take_bytes-Reads n bs rest r e h);
  after = λ r rest h. rw (take_bytes-Reads n bs rest r e h) (advance-Reads n bs rest r e h);
}

pub pure-Decodes : {A : Type 0} (a : A) → Decodes (pure a) [] a
pure-Decodes a = record { value = λ r rest h. refl; after = λ r rest h. h }

pub bind-Decodes :
    {A B : Type 0} (m : Get A) (f : A → Get B) (bs cs : Bytes) (a : A) (b : B)
    → Decodes m bs a
    → Decodes (f a) cs b
    → Decodes (m >>= f) (bs ++ cs) b
unfolding ◌>>=◌
bind-Decodes m f bs cs a b h k = record {
  value = λ r rest p.
      let q = rw (append_assoc bs cs rest) at p in
      ap (λ x. (f x (m r).1).0) (h.value r (cs ++ rest) q)
      ∙ k.value (m r).1 rest (h.after r (cs ++ rest) q);
  after = λ r rest p.
      let q = rw (append_assoc bs cs rest) at p in
      subst (λ x. Reads (f x (m r).1).1 rest) (sym (h.value r (cs ++ rest) q))
        (k.after (m r).1 rest (h.after r (cs ++ rest) q));
}

-- A field that the version leaves at its zero value.
pub skip-Decodes :
    {A B : Type 0} (a : A) (f : A → Get B) (bs : Bytes) (b : B)
    → Decodes (f a) bs b
    → Decodes (pure a >>= f) bs b
unfolding ◌>>=◌
skip-Decodes a f bs b h = record { value = h.value; after = h.after }

-- A pure step after a read.
pub map-Decodes :
    {A B : Type 0} (m : Get A) (f : A → B) (bs : Bytes) (a : A)
    → Decodes m bs a
    → Decodes (m >>= λ x. pure (f x)) bs (f a)
unfolding ◌>>=◌
map-Decodes m f bs a h = record {
  value = λ r rest p. ap f (h.value r rest p);
  after = λ r rest p. h.after r rest p;
}

pub append-Writes : (bs : Bytes) → Writes (append bs) bs
unfolding append
append-Writes bs = record { appends = λ w. refl }

pub then-Writes :
    (p q : Put) (bs cs : Bytes) → Writes p bs → Writes q cs → Writes (p >> q) (bs ++ cs)
then-Writes p q bs cs h k = record {
  appends = λ w. rw (k.appends (p w), h.appends w, append_assoc (w.buf) bs cs);
}

-- A number of `n` bytes that `f` reads.
word-Decodes :
    (n v : ℕ) (f : Bytes → ℕ) (bs : Bytes)
    → length bs ≡ n
    → f bs ≡ v
    → Decodes (take_bytes n >>= λ b. pure (or_zero f b)) bs v
word-Decodes n v f bs hl hv =
    subst (Decodes (take_bytes n >>= λ b. pure (or_zero f b)) bs) hv
      (map-Decodes (take_bytes n) (or_zero f) bs (some bs) (take_bytes-Decodes n bs hl))

pub int16-Decodes : (v : ℕ) → IsInt16 v → Decodes Reader.int16 (put16 v) v
unfolding Reader.int16 put16
int16-Decodes v h = word-Decodes 2 v be16 (put16 v) (length-put16 v) (omega arith)

pub int32-Decodes : (v : ℕ) → IsInt32 v → Decodes Reader.int32 (put32 v) v
unfolding Reader.int32 put32
int32-Decodes v h = word-Decodes 4 v be32 (put32 v) (length-put32 v) (omega arith)

pub int64-Decodes : (v : ℕ) → IsInt64 v → Decodes Reader.int64 (put64 v) v
unfolding Reader.int64 put64
int64-Decodes v h = word-Decodes 8 v be64 (put64 v) (length-put64 v) (omega arith)

pub int8-Decodes : (v : ℕ) → IsByte v → Decodes Reader.int8 ((v % 256) ∷ []) v
unfolding Reader.int8
int8-Decodes v h = word-Decodes 1 v (λ b. get_or b 0 0) ((v % 256) ∷ []) refl (omega arith)

pub ruleset word_rules = (int8-Decodes, int16-Decodes, int32-Decodes, int64-Decodes)

pub string-Decodes :
    (s : Bytes) → length s < 2 ^ 15 → Decodes Reader.string (put16 (length s) ++ s) s
unfolding Reader.string
string-Decodes s h =
    bind-Decodes Reader.int16 Reader.string_body (put16 (length s)) s (length s) s
      (int16-Decodes (length s) (omega arith))
      (rw (lt→not_leb (length s) (2 ^ 15) h) (
        map-Decodes (take_bytes (length s)) or_empty s (some s)
          (take_bytes-Decodes (length s) s refl)))

pub some_string-Decodes :
    (s : Bytes)
    → length s < 2 ^ 15
    → Decodes Reader.nullable_string (put16 (length s) ++ s) (some s)
unfolding Reader.nullable_string
some_string-Decodes s h =
    bind-Decodes Reader.int16 Reader.nullable_string_body (put16 (length s)) s (length s) (some s)
      (int16-Decodes (length s) (omega arith))
      (rw (lt→not_leb (length s) (2 ^ 15) h) (
        map-Decodes (take_bytes (length s)) (λ b. some (or_empty b)) s (some s)
          (take_bytes-Decodes (length s) s refl)))

pub no_string-Decodes : Decodes Reader.nullable_string (put16 minus_one16 ++ []) none
unfolding Reader.nullable_string
no_string-Decodes =
    bind-Decodes Reader.int16 Reader.nullable_string_body (put16 minus_one16) [] minus_one16 none
      (int16-Decodes minus_one16 (omega arith)) (pure-Decodes none)

pub some-bytes-Decodes :
    (b : Bytes) → length b < 2 ^ 31 → Decodes Reader.bytes (put32 (length b) ++ b) (some b)
unfolding Reader.bytes
some-bytes-Decodes b h =
    bind-Decodes Reader.int32 Reader.bytes_body (put32 (length b)) b (length b) (some b)
      (int32-Decodes (length b) (omega arith))
      (rw (lt→not_leb (length b) (2 ^ 31) h) (take_bytes-Decodes (length b) b refl))

pub no_bytes-Decodes : Decodes Reader.bytes (put32 minus_one32 ++ []) none
unfolding Reader.bytes
no_bytes-Decodes =
    bind-Decodes Reader.int32 Reader.bytes_body (put32 minus_one32) [] minus_one32 none
      (int32-Decodes minus_one32 (omega arith)) (pure-Decodes none)
