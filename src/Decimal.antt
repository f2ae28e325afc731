-- ===== src/Decimal.antt =====
-- strconv.Itoa on an int32.
use mq.Common.{
  ℕ, zero, suc, ◌+◌, ◌-◌, ◌*◌, ◌/◌, ◌%◌, ◌^◌, ◌≤◌, ◌<◌, ◌≡◌, refl, sym, ap, ◌∙◌, [], ◌∷◌, ◌++◌,
  Bytes, Int32, IsInt32, ltb, if◌then◌else◌, is_neg32, All, arith, Bool-cases, inl, inr, All-append,
  drop, ◌≢◌, leb→le, get_or, All-back,
}
use mathlib.Core.Path.{subst}

-- The decimal digits of a number below 10 ^ fuel, in ASCII.
unfoldable pub digits : ℕ → ℕ → Bytes
digits zero n = []
digits (suc fuel) n =
    let front = digits fuel (n / 10) in
    if ltb n 10 then (48 + n) ∷ [] else front ++ ((48 + n % 10) ∷ [])

unfoldable pub itoa : Int32 → Bytes
itoa v = if is_neg32 v then 45 ∷ digits 10 (2 ^ 32 - v) else digits 10 v

-- What a row of digits says.
value : ℕ → Bytes → ℕ
value acc [] = acc
value acc (d ∷ ds) = value (10 * acc + (d - 48)) ds

value-append :
    (acc : ℕ) (ds : Bytes) (d : ℕ) → value acc (ds ++ (d ∷ [])) ≡ 10 * value acc ds + (d - 48)
unfolding value
value-append acc [] d = refl
value-append acc (e ∷ ds) d = value-append (10 * acc + (e - 48)) ds d

value-digits : (fuel n : ℕ) → n < 10 ^ fuel → value 0 (digits fuel n) ≡ n
unfolding digits value
value-digits zero n h = ground arith
value-digits (suc fuel) n h = elim (Bool-cases (ltb n 10)) [
  | inl e ↦ rw e (omega arith)
  | inr e ↦
      rw
        (
          e,
          value-append 0 (digits fuel (n / 10)) (48 + n % 10),
          value-digits fuel (n / 10) (omega arith),
        )
        (omega arith)
]

IsDigit : ℕ → Type 0
IsDigit d = (48 ≤ d) × (d < 58)

digits-All : (fuel n : ℕ) → All IsDigit (digits fuel n)
unfolding digits IsDigit
digits-All zero n = tt
digits-All (suc fuel) n = elim (Bool-cases (ltb n 10)) [
  | inl e ↦ rw e (ground arith)
  | inr e ↦ rw e (
      All-append IsDigit (digits fuel (n / 10)) ((48 + n % 10) ∷ []) (digits-All fuel (n / 10))
        (ground arith))
]

digits-inj : (a b : ℕ) → a < 2 ^ 32 → b < 2 ^ 32 → digits 10 a ≡ digits 10 b → a ≡ b
digits-inj a b ha hb e =
    sym (value-digits 10 a (omega arith)) ∙ ap (value 0) e ∙ value-digits 10 b (omega arith)

-- A sign in front of digits.
signed-inj : (a b : Bytes) → All IsDigit b → (45 ∷ a) ≢ b
unfolding IsDigit
signed-inj a [] h e = ground arith
signed-inj a (d ∷ ds) h e = ground arith

pub itoa-inj : (v w : Int32) → IsInt32 v → IsInt32 w → itoa v ≡ itoa w → v ≡ w
unfolding itoa
itoa-inj v w hv hw e = elim (Bool-cases (is_neg32 v)) [
  | inl nv ↦ elim (Bool-cases (is_neg32 w)) [
    | inl nw ↦
        let lv = leb→le (2 ^ 31) v nv in
        let lw = leb→le (2 ^ 31) w nw in
        let q : 45 ∷ digits 10 (2 ^ 32 - v) ≡ 45 ∷ digits 10 (2 ^ 32 - w) = rw (nv, nw) at e in
        let d = digits-inj (2 ^ 32 - v) (2 ^ 32 - w) (omega arith) (omega arith) (ap (drop 1) q) in
        omega arith
    | inr nw ↦
        absurd
          (signed-inj (digits 10 (2 ^ 32 - v)) (digits 10 w) (digits-All 10 w) (rw (nv, nw) at e))
  ]
  | inr nv ↦ elim (Bool-cases (is_neg32 w)) [
    | inl nw ↦ absurd (
        signed-inj (digits 10 (2 ^ 32 - w)) (digits 10 v) (digits-All 10 v)
          (sym (rw (nv, nw) at e)))
    | inr nw ↦ digits-inj v w hv hw (rw (nv, nw) at e)
  ]
]

IsNonzero : ℕ → Type 0
IsNonzero b = b ≢ 0

digit-IsNonzero : (ds : Bytes) → All IsDigit ds → All IsNonzero ds
unfolding IsDigit IsNonzero
digit-IsNonzero [] h = tt
digit-IsNonzero (d ∷ ds) h = (λ e. absurd (omega arith), digit-IsNonzero ds h.1)

itoa-IsNonzero : (v : Int32) → All IsNonzero (itoa v)
unfolding itoa
itoa-IsNonzero v = elim (Bool-cases (is_neg32 v)) [
  | inl nv ↦ rw nv (
    unfold IsNonzero in λ e. absurd (omega arith),
    digit-IsNonzero (digits 10 (2 ^ 32 - v)) (digits-All 10 (2 ^ 32 - v)),
  )
  | inr nv ↦ rw nv (digit-IsNonzero (digits 10 v) (digits-All 10 v))
]

-- A zero byte ends what stands before the last one.
zero-split :
    (s t xs ys : Bytes)
    → All IsNonzero xs
    → All IsNonzero ys
    → s ++ (0 ∷ xs) ≡ t ++ (0 ∷ ys)
    → (s ≡ t) × (xs ≡ ys)
unfolding IsNonzero
zero-split [] [] xs ys hx hy e = (refl, ap (drop 1) e)
zero-split [] (c ∷ t) xs ys hx hy e =
    absurd ((All-back IsNonzero t (0 ∷ ys) (subst (All IsNonzero) (ap (drop 1) e) hx)).0 refl)
zero-split (b ∷ s) [] xs ys hx hy e =
    absurd ((All-back IsNonzero s (0 ∷ xs) (subst (All IsNonzero) (sym (ap (drop 1) e)) hy)).0 refl)
zero-split (b ∷ s) (c ∷ t) xs ys hx hy e =
    let (p, q) = zero-split s t xs ys hx hy (ap (drop 1) e) in
    let head : b ≡ c = ap (λ l. get_or l 0 0) e in (cc, q)

-- A string, a zero byte and a number in decimals are two different keys for two different pairs.
pub zero_key-inj :
    (s t : Bytes) (v w : Int32)
    → IsInt32 v
    → IsInt32 w
    → s ++ (0 ∷ itoa v) ≡ t ++ (0 ∷ itoa w)
    → (s ≡ t) × (v ≡ w)
zero_key-inj s t v w hv hw e =
    let (p, q) = zero-split s t (itoa v) (itoa w) (itoa-IsNonzero v) (itoa-IsNonzero w) e in
    (p, itoa-inj v w hv hw q)
