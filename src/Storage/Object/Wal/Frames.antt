-- ===== src/Storage/Object/Wal/Frames.antt =====
-- internal/storage/object/wal.go: the payload of a record, and its frame.
use mq.Common.{
  ℕ, ◌+◌, ◌^◌, ◌<◌, ◌≡◌, refl, sym, ap, ◌∙◌, ◌++◌, Bytes, arith, append_assoc, IsInt32, IsInt64,
  length, drop, get_or, length-append, take-length, drop-length, drop-front, drop-drop, be16, be32,
  be64, put16, put32, put64, be16-put16, be32-put32, be64-put64, length-put16, length-put32,
  length-put64, le→not_ltb, ok,
}
use mq.Record.Batch.{checksum}
use mq.Storage.Object.Wal.{
  WalRecord, wal_magic, encode_wal_payload, decode_wal_payload, decode_fields, frame_of,
}

-- The fields fit their widths.
pub record Fits (rec : WalRecord) : Type 0 where
  pub topic : length rec.topic < 2 ^ 16
  pub partition : IsInt32 rec.partition
  pub base_offset : IsInt64 rec.base_offset
  pub size : length (encode_wal_payload rec) < 2 ^ 32

fields-put :
    (topic batch : Bytes) (p o : ℕ)
    → IsInt32 p
    → IsInt64 o
    → decode_fields (length topic) (topic ++ (put32 p ++ (put64 o ++ batch)))
      ≡ record { topic = topic; partition = p; base_offset = o; batch = batch }
fields-put topic batch p o hp ho =
    let b = topic ++ (put32 p ++ (put64 o ++ batch)) in
    let name = take-length topic (put32 p ++ (put64 o ++ batch)) in
    let at0 : drop (length topic) b ≡ put32 p ++ (put64 o ++ batch) = drop-length topic _ in
    let at4 : drop (length topic + 4) b ≡ put64 o ++ batch =
      sym (drop-drop (length topic) 4 b)
      ∙ ap (drop 4) at0
      ∙ drop-front 4 (put32 p) (put64 o ++ batch) (length-put32 p) in
    let eight : length topic + 12 ≡ (length topic + 4) + 8 = omega arith in
    let at12 : drop (length topic + 12) b ≡ batch =
      ap (λ n. drop n b) eight
      ∙ sym (drop-drop (length topic + 4) 8 b)
      ∙ ap (drop 8) at4
      ∙ drop-front 8 (put64 o) batch (length-put64 o) in
    ground (arith, name, ap be32 at0 ∙ be32-put32 p _ hp, ap be64 at4 ∙ be64-put64 o batch ho, at12)

-- What encodeWALPayload writes, decodeWALPayload reads back as it was, if the topic is shorter than
-- 2 ^ 16 bytes and the numbers fit their widths.
pub decode-encode_wal_payload :
    (rec : WalRecord)
    → length rec.topic < 2 ^ 16
    → IsInt32 rec.partition
    → IsInt64 rec.base_offset
    → decode_wal_payload (encode_wal_payload rec) ≡ ok rec
unfolding decode_wal_payload encode_wal_payload
decode-encode_wal_payload rec short hp ho =
    let tl = length rec.topic in
    let rest = rec.topic ++ (put32 rec.partition ++ (put64 rec.base_offset ++ rec.batch)) in
    let b = put16 tl ++ rest in
    let read : be16 b ≡ tl = be16-put16 tl rest short in
    let size : length b ≡ 2 + (tl + (4 + (8 + length rec.batch))) = omega (
      arith,
      length-append (put16 tl) rest,
      length-put16 tl,
      length-append rec.topic (put32 rec.partition ++ (put64 rec.base_offset ++ rec.batch)),
      length-append (put32 rec.partition) (put64 rec.base_offset ++ rec.batch),
      length-put32 rec.partition,
      length-append (put64 rec.base_offset) rec.batch,
      length-put64 rec.base_offset,
    ) in
    rw
      (
        read,
        le→not_ltb (length b) 2 (omega (arith, size)),
        le→not_ltb (length b) (2 + tl + 12) (omega (arith, size)),
        drop-front 2 (put16 tl) rest (length-put16 tl),
        fields-put rec.topic rec.batch rec.partition rec.base_offset hp ho,
      )
      refl

checksum-lt : (b : Bytes) → checksum b < 2 ^ 32
unfolding checksum
checksum-lt b = omega arith

-- What a frame shows of its payload, with whatever stands behind it.
pub record Shows (f payload rest : Bytes) : Type 0 where
  pub magic : get_or f 0 0 ≡ wal_magic
  pub crc : be32 (drop 1 f) ≡ checksum payload
  pub size : be32 (drop 5 f) ≡ length payload
  pub body : drop 9 f ≡ payload ++ rest
  pub total : length f ≡ 9 + length payload + length rest

pub frame_of-Shows :
    (payload rest : Bytes) → length payload < 2 ^ 32 → Shows (frame_of payload ++ rest) payload rest
unfolding frame_of
frame_of-Shows payload rest small =
    let n = put32 (length payload) in
    let c = put32 (checksum payload) in
    let e : (c ++ (n ++ payload)) ++ rest ≡ c ++ (n ++ (payload ++ rest)) =
      append_assoc c (n ++ payload) rest ∙ ap (λ t. c ++ t) (append_assoc n payload rest) in
    let at5 = drop-front 4 c (n ++ (payload ++ rest)) (length-put32 (checksum payload)) in
    let at9 : drop 8 (c ++ (n ++ (payload ++ rest))) ≡ payload ++ rest =
      sym (drop-drop 4 4 (c ++ (n ++ (payload ++ rest))))
      ∙ ap (drop 4) at5
      ∙ drop-front 4 n (payload ++ rest) (length-put32 (length payload)) in
    record {
      magic = refl;
      crc =
          ap be32 e ∙ be32-put32 (checksum payload) (n ++ (payload ++ rest)) (checksum-lt payload);
      size =
          ap (λ t. be32 (drop 4 t)) e
          ∙ ap be32 at5
          ∙ be32-put32 (length payload) (payload ++ rest) small;
      body = ap (drop 8) e ∙ at9;
      total = omega (
        arith,
        ap length e,
        length-append c (n ++ (payload ++ rest)),
        length-put32 (checksum payload),
        length-append n (payload ++ rest),
        length-put32 (length payload),
        length-append payload rest,
      );
    }
