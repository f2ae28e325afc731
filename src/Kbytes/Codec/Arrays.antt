-- ===== src/Kbytes/Codec/Arrays.antt =====
-- internal/kbytes: arrays, behind the guard of ArrayLen against absurd lengths.
use mathlib.Core.Path.{subst}
use mq.Common.{
  ℕ, zero, suc, ◌+◌, ◌-◌, ◌%◌, ◌^◌, ◌≤◌, ◌<◌, ◌≡◌, refl, sym, ap, ◌∙◌, List, [], ◌∷◌, ◌++◌, Bytes,
  arith, append_assoc, map, length, length-append, length-drop, put32, length-put32, All,
  lt→not_leb, le→not_ltb,
}
use mq.Kbytes.Reader
use mq.Kbytes.Reader.{Reader, Get, ◌>>=◌, pure, check_len, repeat}
use mq.Kbytes.Writer
use mq.Kbytes.Writer.{Put, ◌>>◌, append, for_each}
use mq.Kbytes.Codec.Primitives.{
  Reads, Reads-length, Decodes, Writes, Codec, append-Writes, then-Writes, bind-Decodes,
  map-Decodes, int32-Decodes, Wide, Codec,
}

record Items {A : Type 0} (n : ℕ) (p : Put) (m : Get A) (a : A) : Type 0 where
  codec : Codec p m a
  wide : n ≤ length codec.image

nil-Items : {A B : Type 0} (f : A → Put) (m : Get B) → Items 0 (for_each [] f) (repeat 0 m) []
unfolding for_each repeat
nil-Items f m = record {
  codec = record {
    image = [];
    writes = record { appends = λ w. sym (mq.Common.append-nil w.buf) };
    decodes = record { value = λ r rest h. refl; after = λ r rest h. h };
  };
  wide = omega arith;
}

cons-Items :
    {A B : Type 0} (f : A → Put) (m : Get B) (x : A) (y : B) (xs : List A) (ys : List B)
    → Wide (f x) m y
    → Items (length xs) (for_each xs f) (repeat (length xs) m) ys
    → Items (length (x ∷ xs)) (for_each (x ∷ xs) f) (repeat (length (x ∷ xs)) m) (y ∷ ys)
unfolding for_each repeat ◌>>=◌
cons-Items f m x y xs ys c d =
    let both : Decodes (m >>= λ a. repeat (length xs) m >>= λ as'. pure (a ∷ as'))
        (c.codec.image ++ d.codec.image) (y ∷ ys) =
      bind-Decodes m (λ a. repeat (length xs) m >>= λ as'. pure (a ∷ as')) c.codec.image
        d.codec.image y (y ∷ ys) c.codec.decodes
        (map-Decodes (repeat (length xs) m) (λ as'. y ∷ as') d.codec.image ys d.codec.decodes) in
    record {
      codec = record {
        image = c.codec.image ++ d.codec.image;
        writes =
            then-Writes (f x) (for_each xs f) c.codec.image d.codec.image c.codec.writes
              d.codec.writes;
        decodes = both;
      };
      wide = omega (arith, c.wide, d.wide, length-append c.codec.image d.codec.image);
    }

module _ {A B : Type 0} (f : A → Put) (m : Get B) (g : A → B) (P : A → Type 0)
    (each : (x : A) → P x → Wide (f x) m (g x)) where
  for_each-Items :
      (xs : List A) → All P xs → Items (length xs) (for_each xs f) (repeat (length xs) m) (map g xs)
  for_each-Items [] h = nil-Items f m
  for_each-Items (x ∷ xs) h =
      cons-Items f m x (g x) xs (map g xs) (each x h.0) (for_each-Items xs h.1)

check_len-Reads :
    (n : ℕ) (bs : Bytes) (r : Reader) → Reads r bs → n ≤ length bs → check_len n r ≡ (n, r)
unfolding check_len
check_len-Reads n bs r h le =
    rw (le→not_ltb (length r.buf - r.pos) n (omega (arith, Reads-length h)))

-- The guard lets a length pass that is followed by as many bytes.
array-Decodes :
    {B : Type 0} (n : ℕ) (m : Get B) (bs : Bytes) (ys : List B)
    → n < 2 ^ 31
    → n ≤ length bs
    → Decodes (repeat n m) bs ys
    → Decodes (Reader.array m) (put32 n ++ bs) ys
unfolding Reader.array Reader.array_len ◌>>=◌
array-Decodes n m bs ys small le d =
    bind-Decodes Reader.int32 (λ k. Reader.array_len_body k >>= λ j. repeat j m) (put32 n) bs n ys
      (int32-Decodes n (omega arith))
      (rw (lt→not_leb n (2 ^ 31) small) (record {
        value = λ r rest h.
            rw (check_len-Reads n (bs ++ rest) r h (omega (arith, length-append bs rest)))
              (d.value r rest h);
        after = λ r rest h.
            rw (check_len-Reads n (bs ++ rest) r h (omega (arith, length-append bs rest)))
              (d.after r rest h);
      }))

array-Writes :
    {A : Type 0} (xs : List A) (f : A → Put) (bs : Bytes)
    → length xs < 2 ^ 31
    → Writes (for_each xs f) bs
    → Writes (Writer.array xs f) (put32 (length xs) ++ bs)
unfolding Writer.array Writer.array_len Writer.int32
array-Writes xs f bs small h =
    let e : length xs % 2 ^ 32 ≡ length xs = omega arith in
    subst (λ n. Writes (append (put32 n) >> for_each xs f) (put32 (length xs) ++ bs)) (sym e)
      (then-Writes (append (put32 (length xs))) (for_each xs f) (put32 (length xs)) bs
        (append-Writes (put32 (length xs))) h)

module _ {A B : Type 0} (f : A → Put) (m : Get B) (g : A → B) (P : A → Type 0)
    (each : (x : A) → P x → Wide (f x) m (g x)) where
  -- An array of elements that each write a byte at least is read back.
  pub array-Codec :
      (xs : List A)
      → length xs < 2 ^ 31
      → All P xs
      → Codec (Writer.array xs f) (Reader.array m) (map g xs)
  array-Codec xs small h =
      let c : Items (length xs) (for_each xs f) (repeat (length xs) m) (map g xs) =
        for_each-Items f m g P each xs h in
      record {
        image = put32 (length xs) ++ c.codec.image;
        writes = array-Writes xs f c.codec.image small c.codec.writes;
        decodes = array-Decodes (length xs) m c.codec.image (map g xs) small c.wide c.codec.decodes;
      }

map_same : {A : Type 0} (xs : List A) → map (λ x. x) xs ≡ xs
map_same [] = refl
map_same (x ∷ xs) = ap (λ t. x ∷ t) (map_same xs)

-- Elements that are read back as they are.
pub list-Codec :
    {A : Type 0} (f : A → Put) (m : Get A) (P : A → Type 0)
    → ((x : A) → P x → Wide (f x) m x)
    → (xs : List A) → length xs < 2 ^ 31
    → All P xs
    → Codec (Writer.array xs f) (Reader.array m) xs
list-Codec f m P each xs small h =
    subst (Codec (Writer.array xs f) (Reader.array m)) (map_same xs)
      (array-Codec f m (λ x. x) P each xs small h)
