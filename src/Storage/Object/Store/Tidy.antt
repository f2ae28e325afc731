-- ===== src/Storage/Object/Store/Tidy.antt =====
-- internal/storage/object/storage.go: the pending parts stay tidy under appends and restores.
use mathlib.Core.Path.{subst}
use mathlib.Core.Option.{some-injective}
use mq.Common.{
  ◌<◌, ◌≡◌, refl, sym, ap, ◌∙◌, Option, none, some, [], ◌∷◌, Bytes, Int64, All, arith, Bool-cases,
  inl, inr, length, flatten, length-append, flatten-append,
}
use mq.Common.Keys.{lookup, insert, lookup-insert, bytes_eq, bytes_beq, bytes_beq_iff}
use mq.Controller.Fsm.{seg_key}
use mq.Storage.Object.Wal.{WalRecord}
use mq.Storage.Object.Store.{
  PendingPart, Pending, Storage, merge_back, in_front, append_pending, with_batch, or_fresh,
}
use mq.Storage.Object.Store.Parts.{Distinct}
use mq.Storage.Object.Store.Slices.{pending_in-with_batch, IsPart}

Distinct-insert :
    (k : Bytes) (pp : PendingPart) (es : Pending) → Distinct es → Distinct (insert k pp es)
unfolding insert
Distinct-insert k pp [] d = (unfold lookup in refl, tt)
Distinct-insert k pp ((j, q) ∷ es) (free, d) = elim (Bool-cases (bytes_beq j k)) [
  | inl e ↦ rw e (free, d)
  | inr e ↦ rw e (
    ground (arith, lookup-insert k j pp es, bytes_beq_iff k j, bytes_beq_iff j k),
    Distinct-insert k pp es d,
  )
]

All-insert :
    (k : Bytes) (pp : PendingPart) (es : Pending)
    → IsPart (k, pp)
    → All IsPart es
    → All IsPart (insert k pp es)
unfolding insert
All-insert k pp [] p a = (p, tt)
All-insert k pp ((j, q) ∷ es) p (h, a) = elim (Bool-cases (bytes_beq j k)) [
  | inl e ↦ rw e ((p.0 ∙ sym ((bytes_beq_iff j k).0 e), p.1), a)
  | inr e ↦ rw e (h, All-insert k pp es p a)
]

lookup-IsPart :
    (k : Bytes) (pp : PendingPart) (es : Pending)
    → All IsPart es
    → lookup k es ≡ some pp
    → IsPart (k, pp)
unfolding lookup
lookup-IsPart k pp [] a e = absurd (cc (e))
lookup-IsPart k pp ((j, q) ∷ es) (h, a) e = elim (Bool-cases (bytes_beq j k)) [
  | inl b ↦
      let same : q ≡ pp = some-injective _ _ (rw b at e) in
      subst (λ x. IsPart (k, x)) same (h.0 ∙ (bytes_beq_iff j k).0 b, h.1)
  | inr b ↦ lookup-IsPart k pp es a (rw b at e)
]

-- The pending parts are a map, and each is what its key says and has bytes.
pub record IsTidy (pending : Pending) : Type 0 where
  pub distinct : Distinct pending
  pub parts : All IsPart pending

batch-IsPart :
    (rec : WalRecord) (next : Int64) (es : Pending) (o : Option PendingPart)
    → lookup (seg_key rec.topic rec.partition) es ≡ o
    → All IsPart es
    → 0 < length rec.batch
    → IsPart (seg_key rec.topic rec.partition, with_batch rec next (or_fresh rec o))
batch-IsPart rec next es none e a some_bytes =
    (refl, omega (arith, ap length (pending_in-with_batch rec next none)))
batch-IsPart rec next es (some pp) e a some_bytes = (
  (lookup-IsPart (seg_key rec.topic rec.partition) pp es a e).0,
  omega (
    arith,
    ap length (pending_in-with_batch rec next (some pp)),
    length-append (flatten pp.batches) rec.batch,
  ),
)

front-IsPart :
    (k : Bytes) (pp : PendingPart) (cur : Option PendingPart)
    → IsPart (k, pp)
    → IsPart (k, in_front pp cur)
front-IsPart k pp none p = p
front-IsPart k pp (some cur) p = (
  p.0,
  omega (
    arith,
    p.1,
    ap length (flatten-append pp.batches cur.batches),
    length-append (flatten pp.batches) (flatten cur.batches),
  ),
)

pub merge_back-IsTidy :
    (snap pending : Pending) → All IsPart snap → IsTidy pending → IsTidy (merge_back snap pending)
unfolding merge_back
merge_back-IsTidy [] pending a t = t
merge_back-IsTidy ((k, pp) ∷ snap) pending (p, a) t =
    let new = in_front pp (lookup k pending) in
    merge_back-IsTidy snap (insert k new pending) a (record {
      distinct = Distinct-insert k new pending t.distinct;
      parts = All-insert k new pending (front-IsPart k pp (lookup k pending) p) t.parts;
    })

module _ {O I : Type 0} where
  pub append_pending-IsTidy :
      (s : Storage O I) (rec : WalRecord) (next : Int64)
      → IsTidy s.pending
      → 0 < length rec.batch
      → IsTidy (append_pending s rec next).pending
  unfolding append_pending
  append_pending-IsTidy s rec next t some_bytes =
      let k = seg_key rec.topic rec.partition in
      let pp = with_batch rec next (or_fresh rec (lookup k s.pending)) in
      record {
        distinct = Distinct-insert k pp s.pending t.distinct;
        parts =
            All-insert k pp s.pending
              (batch-IsPart rec next s.pending (lookup k s.pending) refl t.parts some_bytes)
              t.parts;
      }
