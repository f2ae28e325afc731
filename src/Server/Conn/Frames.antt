-- ===== src/Server/Conn/Frames.antt =====
-- internal/server/server.go: requests that come in frames are served one after another.
use mq.Common.{
  ℕ, zero, suc, ◌+◌, ◌<◌, ◌≤◌, ◌≡◌, refl, sym, ap, ◌∙◌, false, ◌||◌, ◌==◌, List, [], ◌∷◌, ◌++◌, map,
  Bytes, arith, append_assoc, length, take, drop, flatten, All, length-append, take-length,
  drop-length, drop-front, drop-drop, ltb, lt→ltb, le→not_ltb, be32, put32, be32-put32,
  length-put32,
}
use mq.Server.Conn.{
  max_frame_bytes, Dispatch, serve_frame, sent, conn_round, conn_loop, handle_conn,
}

-- A request as it is sent.
abbrev pub request_frame : Bytes → Bytes
request_frame frame = put32 (length frame) ++ frame

abbrev pub IsFrame : Bytes → Type 0
IsFrame frame = (1 ≤ length frame) × (length frame ≤ max_frame_bytes)

module _ {S : Type 0} (dispatch : Dispatch S) where
  -- The requests served in order.
  abbrev pub serve_all : List Bytes → S → List Bytes × S
  serve_all [] s = ([], s)
  serve_all (f ∷ fs) s =
      sent (serve_frame dispatch f s).0 (serve_all fs (serve_frame dispatch f s).1)

  conn_round-frame :
      (frame rest : Bytes) (s : S) (next : Bytes → S → List Bytes × S)
      → IsFrame frame
      → conn_round dispatch (request_frame frame ++ rest) s next
        ≡ sent (serve_frame dispatch frame s).0 (next rest (serve_frame dispatch frame s).1)
  unfolding conn_round
  conn_round-frame frame rest s next (some_bytes, few) =
      let n = length frame in
      let all = put32 n ++ (frame ++ rest) in
      let e : request_frame frame ++ rest ≡ all = append_assoc (put32 n) frame rest in
      let size : be32 all ≡ n = be32-put32 n (frame ++ rest) (omega arith) in
      let total : length all ≡ 4 + (n + length rest) = omega (
        arith,
        length-append (put32 n) (frame ++ rest),
        length-put32 n,
        length-append frame rest,
      ) in
      let at4 : drop 4 all ≡ frame ++ rest =
        drop-front 4 (put32 n) (frame ++ rest) (length-put32 n) in
      let body : take n (drop 4 all) ≡ frame = ap (take n) at4 ∙ take-length frame rest in
      let behind : drop (4 + n) all ≡ rest =
        sym (drop-drop 4 n all) ∙ ap (drop n) at4 ∙ drop-length frame rest in
      let fits : (n == 0 || ltb max_frame_bytes n) ≡ false = ground arith in
      rw
        (
          e,
          size,
          body,
          behind,
          fits,
          le→not_ltb (length all) 4 (omega (arith, total)),
          le→not_ltb (length all) (4 + n) (omega (arith, total)),
        )
        refl

  conn_loop-frames :
      (frames : List Bytes) (fuel : ℕ) (tail : Bytes) (s : S)
      → All IsFrame frames
      → length tail < 4
      → length (flatten (map request_frame frames) ++ tail) < fuel
      → conn_loop dispatch fuel (flatten (map request_frame frames) ++ tail) s ≡ serve_all frames s
  unfolding conn_loop
  conn_loop-frames frames zero tail s h t f = elim f [ ]
  conn_loop-frames [] (suc fuel) tail s h t f =
      unfold conn_round in rw (lt→ltb (length tail) 4 t) refl
  conn_loop-frames (frame ∷ frames) (suc fuel) tail s h t f =
      let rest = flatten (map request_frame frames) ++ tail in
      let e = append_assoc (request_frame frame) (flatten (map request_frame frames)) tail in
      let size : length (request_frame frame ++ rest) ≡ 4 + length frame + length rest = omega (
        arith,
        length-append (request_frame frame) rest,
        length-append (put32 (length frame)) frame,
        length-put32 (length frame),
      ) in
      let served = serve_frame dispatch frame s in
      rw e (conn_round-frame frame rest s (conn_loop dispatch fuel) h.0)
      ∙ ap (sent served.0)
          (conn_loop-frames frames fuel tail served.1 h.1 t (omega (arith, ap length e, size)))

  -- Requests that come in frames of 1 byte to 100 MiB, whatever is left of a length behind them when
  -- the client closes: the connection serves each of them once, in order, each on the state that the
  -- one before left, and the answers go out in that order.
  pub handle_conn-frames :
      (frames : List Bytes) (tail : Bytes) (s : S)
      → All IsFrame frames
      → length tail < 4
      → handle_conn dispatch (flatten (map request_frame frames) ++ tail) s ≡ serve_all frames s
  unfolding handle_conn
  handle_conn-frames frames tail s h t =
      conn_loop-frames frames (suc (length (flatten (map request_frame frames) ++ tail))) tail s h t
        (omega arith)
