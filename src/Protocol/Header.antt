-- ===== src/Protocol/Header.antt =====
-- internal/protocol/header.go and apikeys.go: headers, API keys, versions and error codes.
use mq.Common.{
  ℕ, Option, none, some, List, [], ◌∷◌, Bytes, Int16, Int32, le_i16, ◌==◌, if◌then◌else◌,
}
use mq.Kbytes.Reader.{Get, ◌>>=◌, pure, int16, int32, nullable_string}
use mq.Kbytes.Writer
use mq.Kbytes.Writer.{Put, skip}

pub record RequestHeader : Type 0 where
  pub api_key : Int16
  pub api_version : Int16
  pub correlation_id : Int32
  pub client_id : Option Bytes

unfoldable pub decode_request_header : Get RequestHeader
decode_request_header = do
  api_key ← int16
  api_version ← int16
  correlation_id ← int32
  client_id ← nullable_string
  pure (record {
    api_key = api_key;
    api_version = api_version;
    correlation_id = correlation_id;
    client_id = client_id;
  })

unfoldable pub write_response_header : Int32 → Put
write_response_header correlation_id = Writer.int32 correlation_id

-- `if version >= v { field = read }`, on a field that starts at its zero value
abbrev pub since : {A : Type 0} → Int16 → Int16 → Get A → A → Get A
since version v read zero_value = if le_i16 v version then read else pure zero_value

-- `if version >= v { write }`
abbrev pub write_since : Int16 → Int16 → Put → Put
write_since version v write = if le_i16 v version then write else skip

pub record VersionRange : Type 0 where
  pub api_key : Int16
  pub min : Int16
  pub max : Int16

abbrev range : ℕ → ℕ → ℕ → VersionRange
range k lo hi = record { api_key = k; min = lo; max = hi }

unfoldable pub supported_versions : List VersionRange
supported_versions =
    range 0 0 7
    ∷ range 1 0 11
    ∷ range 2 0 5
    ∷ range 3 0 8
    ∷ range 8 0 6
    ∷ range 9 0 5
    ∷ range 10 0 2
    ∷ range 11 0 4
    ∷ range 12 0 2
    ∷ range 13 0 2
    ∷ range 14 0 2
    ∷ range 15 0 2
    ∷ range 16 0 2
    ∷ range 18 0 2
    ∷ range 19 0 4
    ∷ range 37 0 1
    ∷ []

unfoldable pub find_range : Int16 → List VersionRange → Option VersionRange
find_range k [] = none
find_range k (v ∷ vs) = if v.api_key == k then some v else find_range k vs

unfoldable pub supported : Int16 → Option VersionRange
supported k = find_range k supported_versions

-- The error codes that the model names.
abbrev pub err_none : Int16
err_none = 0

abbrev pub err_offset_out_of_range : Int16
err_offset_out_of_range = 1

abbrev pub err_request_timed_out : Int16
err_request_timed_out = 7

abbrev pub err_illegal_generation : Int16
err_illegal_generation = 22

abbrev pub err_unknown_member_id : Int16
err_unknown_member_id = 25

abbrev pub err_rebalance_in_progress : Int16
err_rebalance_in_progress = 27
