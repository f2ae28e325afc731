-- ===== src/Server/Conn.antt =====
-- internal/server/server.go: a connection, as the bytes that it brings and the answers that go out.
-- The dispatcher is an argument.
pub mod Frames
use mq.Common.{
  ℕ, zero, suc, ◌+◌, ◌==◌, Bool, true, false, ◌||◌, Option, none, some, List, [], ◌∷◌, ◌++◌, Bytes,
  Int32, length, take, drop, ltb, be32, put32, if◌then◌else◌,
}
use mq.Kbytes.Reader.{Reader, new_reader}
use mq.Kbytes.Writer.{◌>>◌, raw, new_writer, finish}
use mq.Protocol.Header.{RequestHeader, decode_request_header, write_response_header}

-- 100 << 20
abbrev pub max_frame_bytes : ℕ
max_frame_bytes = 104_857_600

-- writeResponse: the bytes of a response.
unfoldable pub response_frame : Int32 → Bytes → Bytes
response_frame correlation_id body =
    let payload = finish ((write_response_header correlation_id >> raw body) new_writer) in
    put32 (length payload) ++ payload

-- A request, decoded up to its body, and what the handler makes of it: the body of the answer, or
-- none where no answer goes out.
abbrev pub Dispatch : Type 0 → Type 0
Dispatch S = RequestHeader → Reader → S → Option Bytes × S

abbrev pub answer : RequestHeader → Option Bytes → List Bytes
answer hdr none = []
answer hdr (some body) = response_frame hdr.correlation_id body ∷ []

abbrev pub sent : {S : Type 0} → List Bytes → List Bytes × S → List Bytes × S
sent out (more, s) = (out ++ more, s)

module _ {S : Type 0} (dispatch : Dispatch S) where
  -- One request frame: the answers, and the state after it.
  unfoldable pub serve_frame : Bytes → S → List Bytes × S
  serve_frame frame s =
      let request = decode_request_header (new_reader frame) in
      let done = dispatch request.0 request.1 s in (answer request.0 done.0, done.1)

  -- One round of the loop, on the bytes that are unread; `next` goes on behind the frame.
  unfoldable pub conn_round : Bytes → S → (Bytes → S → List Bytes × S) → List Bytes × S
  conn_round rest s next =
      let size = be32 rest in
      let served = serve_frame (take size (drop 4 rest)) s in
      let more = sent served.0 (next (drop (4 + size) rest) served.1) in
      if ltb (length rest) 4
      then ([], s)
      else if size == 0 || ltb max_frame_bytes size
      then ([], s)
      else if ltb (length rest) (4 + size)
      then ([], s)
      else more

  unfoldable pub conn_loop : ℕ → Bytes → S → List Bytes × S
  conn_loop zero rest s = ([], s)
  conn_loop (suc fuel) rest s = conn_round rest s (conn_loop fuel)

  -- handleConn, where every write goes through and the client closes behind these bytes. Each round
  -- that goes on takes five bytes at least.
  unfoldable pub handle_conn : Bytes → S → List Bytes × S
  handle_conn bytes s = conn_loop (suc (length bytes)) bytes s
