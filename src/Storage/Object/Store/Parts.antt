-- ===== src/Storage/Object/Store/Parts.antt =====
-- internal/storage/object/storage.go: the pending parts by their keys, sorted and merged back.
use mq.Common.{
  ◌≡◌, refl, sym, ap, ◌∙◌, Option, none, some, [], ◌∷◌, Bytes, All, if◌then◌else◌, arith,
  Bool-cases, inl, inr,
}
use mq.Common.Keys.{lookup, insert, lookup-insert, bytes_eq, bytes_beq, bytes_beq_iff}
use mq.Controller.Failover.{bytes_ltb}
use mq.Storage.Object.Store.{PendingPart, Pending, insert_part, by_key, in_front, merge_back}

-- No key stands twice, as in a map.
abbrev pub Distinct : Pending → Type 0
Distinct [] = Unit {0}
Distinct ((k, pp) ∷ es) = (lookup k es ≡ none) × Distinct es

lookup-insert_part :
    (k j : Bytes) (pp : PendingPart) (es : Pending)
    → lookup k es ≡ none
    → lookup j (insert_part (k, pp) es) ≡ (if bytes_beq k j then some pp else lookup j es)
unfolding lookup insert_part
lookup-insert_part k j pp [] h = refl
lookup-insert_part k j pp ((i, q) ∷ es) h = elim (Bool-cases (bytes_ltb k i)) [
  | inl e ↦ rw e refl
  | inr e ↦ rw e (
      ground (
        arith,
        bytes_beq_iff i k,
        bytes_beq_iff i j,
        bytes_beq_iff k j,
        lookup-insert_part k j pp es,
      ))
]

Distinct-insert_part :
    (k : Bytes) (pp : PendingPart) (es : Pending)
    → lookup k es ≡ none
    → Distinct es
    → Distinct (insert_part (k, pp) es)
unfolding lookup insert_part
Distinct-insert_part k pp [] h d = (refl, tt)
Distinct-insert_part k pp ((i, q) ∷ es) h (free, d) = elim (Bool-cases (bytes_ltb k i)) [
  | inl e ↦ rw e (h, (free, d))
  | inr e ↦ elim (Bool-cases (bytes_beq i k)) [
    | inl same ↦
        absurd (let n : ◌≡◌ {A = Option PendingPart} (some q) none = rw same at h in cc (n))
    | inr other ↦
        let h' : lookup k es ≡ none = rw other at h in
        rw e (
          ground (arith, lookup-insert_part k i pp es, bytes_beq_iff i k, bytes_beq_iff k i),
          Distinct-insert_part k pp es h' d,
        )
  ]
]

All-insert_part :
    (P : Bytes × PendingPart → Type 0) (e : Bytes × PendingPart) (es : Pending)
    → P e
    → All P es
    → All P (insert_part e es)
unfolding insert_part
All-insert_part P e [] p a = (p, tt)
All-insert_part P e (f ∷ fs) p (q, a) = elim (Bool-cases (bytes_ltb e.0 f.0)) [
  | inl x ↦ rw x (p, (q, a))
  | inr x ↦ rw x (q, All-insert_part P e fs p a)
]

pub lookup-by_key : (j : Bytes) (es : Pending) → Distinct es → lookup j (by_key es) ≡ lookup j es
unfolding lookup by_key
lookup-by_key j [] d = refl
lookup-by_key j ((k, pp) ∷ es) (free, d) =
    lookup-insert_part k j pp (by_key es) (lookup-by_key k es d ∙ free)
    ∙ ap (λ r. if bytes_beq k j then some pp else r) (lookup-by_key j es d)

pub Distinct-by_key : (es : Pending) → Distinct es → Distinct (by_key es)
unfolding by_key
Distinct-by_key [] d = tt
Distinct-by_key ((k, pp) ∷ es) (free, d) =
    Distinct-insert_part k pp (by_key es) (lookup-by_key k es d ∙ free) (Distinct-by_key es d)

pub All-by_key : (P : Bytes × PendingPart → Type 0) (es : Pending) → All P es → All P (by_key es)
unfolding by_key
All-by_key P [] a = tt
All-by_key P (e ∷ es) (p, a) = All-insert_part P e (by_key es) p (All-by_key P es a)

abbrev pub joined : Option PendingPart → Option PendingPart → Option PendingPart
joined none cur = cur
joined (some pp) cur = some (in_front pp cur)

pub lookup-merge_back :
    (j : Bytes) (snap pending : Pending)
    → Distinct snap
    → lookup j (merge_back snap pending) ≡ joined (lookup j snap) (lookup j pending)
unfolding merge_back
lookup-merge_back j [] pending d = unfold lookup in refl
lookup-merge_back j ((k, pp) ∷ snap) pending (free, d) =
    let new = in_front pp (lookup k pending) in
    let ih = lookup-merge_back j snap (insert k new pending) d in
    let read = lookup-insert k j new pending in
    elim (Bool-cases (bytes_beq k j)) [
      | inl e ↦
          let same : k ≡ j = (bytes_beq_iff k j).0 e in
          let none_left : lookup j snap ≡ none = ap (λ x. lookup x snap) (sym same) ∙ free in
          let here : lookup j ((k, pp) ∷ snap) ≡ some pp = unfold lookup in rw e refl in
          ih
          ∙ ap (λ r. joined r (lookup j (insert k new pending))) none_left
          ∙ read
          ∙ ap (λ c. if c then some new else lookup j pending) e
          ∙ ap (λ x. some (in_front pp (lookup x pending))) same
          ∙ ap (λ r. joined r (lookup j pending)) (sym here)
      | inr e ↦
          let there : lookup j ((k, pp) ∷ snap) ≡ lookup j snap = unfold lookup in rw e refl in
          ih
          ∙ ap (joined (lookup j snap))
              (read ∙ ap (λ c. if c then some new else lookup j pending) e)
          ∙ ap (λ r. joined r (lookup j pending)) (sym there)
    ]
