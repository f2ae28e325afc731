-- ===== src/Broker/Replicas/Watermark.antt =====
-- internal/broker/broker.go: the high watermark that a leader sets.
use mathlib.Core.Path.{subst}
use mq.Common.{
  ℕ, ◌==◌, ◌≡◌, ◌⊎◌, inl, inr, refl, ap, ◌∙◌, true, some, List, [], ◌∷◌, Bytes, Int32, Int64,
  lt_i64, le_i64, All, if◌then◌else◌, arith, Bool-cases, ==_iff,
}
use mq.Common.Keys.{lookup, insert, lookup-insert, bytes_eq, nat_eq, pair_eq, beq_refl}
use mq.Controller.Fsm.{MetaState, PartitionMeta, partition}
use mq.Storage.Backend.{Backend, raised}
use mq.Broker.{Broker, FollowerProgress, get_log, node_id}
use mq.Broker.Replicas.{
  Progress, end_of, followers_of, least_offset, kept_progress, advance_high_watermark,
  record_replica_fetch, recorded, advance_log,
}

-- What the leader knows of a follower reaches `h`.
abbrev pub Acked : Int32 → Progress → Int64 → Int32 → Type 0
Acked self prog h id = (id ≡ self) ⊎ (le_i64 h (end_of (lookup id prog)) ≡ true)

Acked-le :
    (self : Int32) (prog : Progress) (h h' : Int64) (ids : List Int32)
    → le_i64 h' h ≡ true
    → All (Acked self prog h) ids
    → All (Acked self prog h') ids
Acked-le self prog h h' [] le a = tt
Acked-le self prog h h' (id ∷ ids) le (inl e, a) = (inl e, Acked-le self prog h h' ids le a)
Acked-le self prog h h' (id ∷ ids) le (inr e, a) =
    (inr (ground (arith)), Acked-le self prog h h' ids le a)

least-le :
    (self : Int32) (prog : Progress) (ids : List Int32) (hwm : Int64)
    → le_i64 (least_offset self prog ids hwm) hwm ≡ true
unfolding least_offset
least-le self prog [] hwm = ground arith
least-le self prog (id ∷ ids) hwm = ground (
  arith,
  least-le self prog ids (
      if id == self
      then hwm
      else if lt_i64 (end_of (lookup id prog)) hwm
      then end_of (lookup id prog)
      else hwm),
)

least-Acked :
    (self : Int32) (prog : Progress) (ids : List Int32) (hwm : Int64)
    → All (Acked self prog (least_offset self prog ids hwm)) ids
unfolding least_offset
least-Acked self prog [] hwm = tt
least-Acked self prog (id ∷ ids) hwm =
    let off = end_of (lookup id prog) in
    let hwm' = if id == self then hwm else if lt_i64 off hwm then off else hwm in
    let below = least-le self prog ids hwm' in
    (
      elim (Bool-cases (id == self)) [
        | inl e ↦ inl ((==_iff id self).0 e)
        | inr e ↦ inr (ground (arith))
      ],
      least-Acked self prog ids hwm',
    )

least-greatest :
    (self : Int32) (prog : Progress) (h : Int64) (ids : List Int32) (hwm : Int64)
    → le_i64 h hwm ≡ true
    → All (Acked self prog h) ids
    → le_i64 h (least_offset self prog ids hwm) ≡ true
unfolding least_offset
least-greatest self prog h [] hwm le a = le
least-greatest self prog h (id ∷ ids) hwm le a =
    least-greatest self prog h ids
      (if id == self
        then hwm
        else if lt_i64 (end_of (lookup id prog)) hwm
        then end_of (lookup id prog)
        else hwm)
      (ground (arith, a.0)) a.1

-- A log whose high watermark was moved for the in-sync replicas `isr`.
pub record Advanced {L : Type 0} (k : Backend L) (self : Int32) (prog : Progress) (isr : List Int32)
    (l l' : L) : Type 0 where
  pub same_end : k.latest_of l' ≡ k.latest_of l
  pub forward : le_i64 (k.high_watermark_of l) (k.high_watermark_of l') ≡ true
  pub acked :
      (k.high_watermark_of l' ≡ k.high_watermark_of l)
      ⊎ ((le_i64 (k.high_watermark_of l') (k.latest_of l) ≡ true)
          × All (Acked self prog (k.high_watermark_of l')) isr)

raised_cases :
    (h high next : Int64)
    → (le_i64 high (raised h high next) ≡ true)
      × ((raised h high next ≡ high)
          ⊎ ((le_i64 (raised h high next) next ≡ true) × (le_i64 (raised h high next) h ≡ true)))
raised_cases h high next = elim (Bool-cases (lt_i64 next h)) [
  | inl e ↦ elim (Bool-cases (lt_i64 high next)) [
    | inl f ↦ rw (e, f) (ground arith, inr (ground arith, ground arith))
    | inr f ↦ rw (e, f) (ground arith, inl refl)
  ]
  | inr e ↦ elim (Bool-cases (lt_i64 high h)) [
    | inl f ↦ rw (e, f) (ground arith, inr (ground arith, ground arith))
    | inr f ↦ rw (e, f) (ground arith, inl refl)
  ]
]

raised-greatest :
    (x h high next : Int64)
    → le_i64 x h ≡ true
    → le_i64 x next ≡ true
    → le_i64 x (raised h high next) ≡ true
raised-greatest x h high next a b = ground arith

module _ {L : Type 0} (k : Backend L) where
  advance_log-Advanced :
      (b : Broker L) (topic : Bytes) (p : Int32) (isr : List Int32) (l : L)
      → Advanced k (node_id b) (followers_of b topic p) isr l (advance_log k b topic p isr l)
  advance_log-Advanced b topic p isr l =
      let self = node_id b in
      let prog = followers_of b topic p in
      let h = least_offset self prog isr (k.latest_of l) in
      let (forward, cases) = raised_cases h (k.high_watermark_of l) (k.latest_of l) in
      record {
        same_end = k.latest-set h l;
        forward = rw (k.high-set h l) forward;
        acked = rw (k.high-set h l) (elim cases [
          | inl e ↦ inl e
          | inr (below, least) ↦
              inr (
                below,
                Acked-le self prog h _ isr least (least-Acked self prog isr (k.latest_of l)),
              )
        ]);
      }

  advance-found :
      (b : Broker L) (st : MetaState) (topic : Bytes) (p : Int32) (pv : PartitionMeta) (l : L)
      → partition st topic p ≡ some pv
      → pv.leader ≡ node_id b
      → get_log b topic p ≡ some l
      → get_log (advance_high_watermark k b st topic p) topic p
        ≡ some (advance_log k b topic p pv.isr l)
  unfolding advance_high_watermark
  advance-found b st topic p pv l e led open_ =
      rw
        (
          e,
          (==_iff pv.leader (node_id b)).1 led,
          open_,
          lookup-insert (topic, p) (topic, p) (advance_log k b topic p pv.isr l) b.logs,
          beq_refl {A = Bytes × Int32} (topic, p),
        )
        refl

  -- A leader that is told of a fetch of a replica at `offset`, on a partition whose log is open:
  -- the log keeps its end, its high watermark never goes back, and where it moves, it does not pass
  -- the log's end nor the end offset that is known of any other in-sync replica, with the fetch
  -- that came in for this replica.
  pub record_replica_fetch-Advanced :
      (b : Broker L) (st : MetaState) (topic : Bytes) (p id : Int32) (offset : Int64) (now : ℕ)
      (pv : PartitionMeta) (l : L)
      → b.ctrl ≡ some st
      → partition st topic p ≡ some pv
      → pv.leader ≡ node_id b
      → get_log b topic p ≡ some l
      → (l' : L) × (get_log (record_replica_fetch k b topic p id offset now) topic p ≡ some l')
        × Advanced k
            (node_id b)
            (insert id (record { end_offset = offset; last_seen = now }) (followers_of b topic p))
            pv.isr
            l
            l'
  unfolding record_replica_fetch
  record_replica_fetch-Advanced b st topic p id offset now pv l ctrl e led open_ =
      let pr : FollowerProgress = record { end_offset = offset; last_seen = now } in
      let b' = kept_progress b topic p id pr in
      let prog : followers_of b' topic p ≡ insert id pr (followers_of b topic p) =
        rw
          (
            lookup-insert (topic, p) (topic, p) (insert id pr (followers_of b topic p)) b.followers,
            beq_refl {A = Bytes × Int32} (topic, p),
          )
          refl in
      (
        advance_log k b' topic p pv.isr l,
        ap (λ c. get_log (recorded k b topic p id pr c) topic p) ctrl
            ∙ advance-found b' st topic p pv l e led open_,
        subst (λ q. Advanced k (node_id b) q pv.isr l (advance_log k b' topic p pv.isr l)) prog
            (advance_log-Advanced b' topic p pv.isr l),
      )

  -- On a partition that this node leads and whose log is open, the high watermark reaches every
  -- offset that lies within the log and that all other in-sync replicas are known to have reached.
  pub advance_high_watermark-reaches :
      (b : Broker L) (st : MetaState) (topic : Bytes) (p : Int32) (pv : PartitionMeta) (l : L)
      (x : Int64)
      → partition st topic p ≡ some pv
      → pv.leader ≡ node_id b
      → get_log b topic p ≡ some l
      → le_i64 x (k.latest_of l) ≡ true
      → All (Acked (node_id b) (followers_of b topic p) x) pv.isr
      → (l' : L) × (get_log (advance_high_watermark k b st topic p) topic p ≡ some l')
        × (le_i64 x (k.high_watermark_of l') ≡ true)
  advance_high_watermark-reaches b st topic p pv l x e led open_ inside acked =
      let self = node_id b in
      let prog = followers_of b topic p in
      let h = least_offset self prog pv.isr (k.latest_of l) in
      (
        advance_log k b topic p pv.isr l,
        advance-found b st topic p pv l e led open_,
        rw (k.high-set h l) (
            raised-greatest x h (k.high_watermark_of l) (k.latest_of l)
              (least-greatest self prog x pv.isr (k.latest_of l) inside acked) inside),
      )
