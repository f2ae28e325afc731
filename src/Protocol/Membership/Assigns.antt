-- ===== src/Protocol/Membership/Assigns.antt =====
-- internal/protocol/group.go: the broker against Kafka's layout of the SyncGroup and JoinGroup requests.
use mq.Common.{◌^◌, ◌<◌, ◌≡◌, [], IsInt32, length, All}
use mq.Kbytes.Reader.{new_reader}
use mq.Kbytes.Writer
use mq.Kbytes.Writer.{Put, ◌>>◌}
use mq.Kbytes.Codec.{
  Codec, Wide, Reads, bind-Codec, bind-Wide, last-Codec, int32-Codec, string-Wide, string-Codec,
  bytes-Codec, list-Codec, Codec-fresh, FitsInt32,
}
use mq.Protocol.Membership.{
  SyncGroupAssignment, SyncGroupRequest, decode_sync_assignment, decode_sync_group,
}

-- Kafka's layout, versions 0 to 2.
abbrev write_assignment : SyncGroupAssignment → Put
write_assignment a = do Writer.string a.member_id; Writer.bytes a.assignment

abbrev pub write_sync_group : SyncGroupRequest → Put
write_sync_group req = do
  Writer.string req.group_id
  Writer.int32 req.generation_id
  Writer.string req.member_id
  Writer.array req.assignments write_assignment

pub record FitsAssignment (a : SyncGroupAssignment) : Type 0 where
  pub member_id : length a.member_id < 2 ^ 15
  pub assignment : FitsInt32 a.assignment

pub record FitsSyncGroup (req : SyncGroupRequest) : Type 0 where
  pub group_id : length req.group_id < 2 ^ 15
  pub generation_id : IsInt32 req.generation_id
  pub member_id : length req.member_id < 2 ^ 15
  pub count : length req.assignments < 2 ^ 31
  pub assignments : All FitsAssignment req.assignments

assignment-Wide :
    (a : SyncGroupAssignment)
    → FitsAssignment a
    → Wide (write_assignment a) decode_sync_assignment a
unfolding decode_sync_assignment
assignment-Wide a h = bind-Wide _ (string-Wide a.member_id h.member_id) (
    last-Codec (λ b. record { member_id = a.member_id; assignment = b })
      (bytes-Codec a.assignment h.assignment))

sync_group-Codec :
    (req : SyncGroupRequest)
    → FitsSyncGroup req
    → Codec (write_sync_group req) decode_sync_group req
unfolding decode_sync_group
sync_group-Codec req h = bind-Codec _ (string-Codec req.group_id h.group_id) (
    bind-Codec _ (int32-Codec req.generation_id h.generation_id) (
      bind-Codec _ (string-Codec req.member_id h.member_id) (
        last-Codec
          (λ given. record {
            group_id = req.group_id;
            generation_id = req.generation_id;
            member_id = req.member_id;
            assignments = given;
          })
          (list-Codec write_assignment decode_sync_assignment FitsAssignment assignment-Wide
            req.assignments h.count h.assignments))))

-- A SyncGroup request in Kafka's layout, with lengths and numbers that fit their fields, decodes to
-- itself, without an error and with nothing left: every assignment stays with its member.
pub decode_sync_group-write_sync_group :
    (req : SyncGroupRequest)
    → FitsSyncGroup req
    → ((decode_sync_group (new_reader (Writer.finish (write_sync_group req Writer.new_writer)))).0
        ≡ req)
      × Reads
          (decode_sync_group
            (new_reader (Writer.finish (write_sync_group req Writer.new_writer)))).1
          []
decode_sync_group-write_sync_group req h = Codec-fresh (sync_group-Codec req h)
