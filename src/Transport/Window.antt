-- ===== src/Transport/Window.antt =====
-- The flow-control window of `Http2Stream` in src/transport/http2.rs.
use tls_tunnel.Prelude.{
  ℕ, zero, suc, ◌+◌, ◌≡◌, ◌<◌, ◌≤◌, refl, ap, sym, subst, ◌∙◌, true, some, List, [], ◌∷◌, ◌++◌, Str,
  length, take, drop, min, ltb, arith, All, length-drop, take_nil,
}
use tls_tunnel.Transport.ByteStream.{poll_reads, put_bytes, filled}
use tls_tunnel.Transport.Http2
use tls_tunnel.Transport.Http2.{Http2Stream, Frame, chunk, keep_nonempty}
use tls_tunnel.Transport.Streams.{http2}

abbrev pub sum : List ℕ → ℕ
sum [] = 0
sum (n ∷ ns) = n + sum ns

take-add : (m n : ℕ) (bytes : Str) → take m bytes ++ take n (drop m bytes) ≡ take (m + n) bytes
take-add zero n bytes = ground arith
take-add (suc m) n [] = rw (take_nil {A = ℕ} n, take_nil {A = ℕ} (suc m + n))
take-add (suc m) n (byte ∷ bytes) =
    let shift : suc (m + n) ≡ suc m + n = omega arith in
    ap (λ t. byte ∷ t) (take-add m n bytes) ∙ ap (λ k. take k (byte ∷ bytes)) shift

poll_from-keep_nonempty :
    (s : Http2Stream) (bytes : Str) (room : ℕ)
    → room ≤ length bytes
    → 0 < room
    → Http2.poll_from (keep_nonempty bytes) s room
      ≡ (record s { read_buf = keep_nonempty (drop room bytes) }, filled (take room bytes))
unfolding Http2.poll_from
poll_from-keep_nonempty s [] room fits h = absurd (omega arith)
poll_from-keep_nonempty s (byte ∷ bytes) room fits h =
    let all : min (length (byte ∷ bytes)) room ≡ room = omega arith in rw all

some-keep_nonempty : (bytes : Str) → 0 < length bytes → some bytes ≡ keep_nonempty bytes
some-keep_nonempty [] h = absurd (omega arith)
some-keep_nonempty (byte ∷ bytes) h = refl

-- Reads that stay within the buffer give its bytes and release nothing.
reads_buffered :
    (rooms : List ℕ) (s : Http2Stream) (bytes : Str)
    → s.read_buf ≡ keep_nonempty bytes
    → All (λ room. 0 < room) rooms
    → sum rooms ≤ length bytes
    → ((poll_reads http2 s rooms).1 ≡ take (sum rooms) bytes)
      × ((poll_reads http2 s rooms).0.released ≡ s.released)
unfolding Http2.poll_read
reads_buffered [] s bytes e some_room fits = (refl, refl)
reads_buffered (room ∷ rooms) s bytes e some_room fits =
    let next : Http2Stream = record s { read_buf = keep_nonempty (drop room bytes) } in
    let step : Http2.poll_read s room ≡ (next, filled (take room bytes)) =
      ap (λ b. Http2.poll_from b s room) e
      ∙ poll_from-keep_nonempty s bytes room (omega arith) some_room.0 in
    let rest =
      reads_buffered rooms next (drop room bytes) refl some_room.1
        (omega (arith, length-drop room bytes)) in
    subst
      (λ r.
        (put_bytes r.1 ++ (poll_reads http2 r.0 rooms).1 ≡ take (room + sum rooms) bytes)
        × ((poll_reads http2 r.0 rooms).0.released ≡ s.released))
      (sym step) (ap (λ t. take room bytes ++ t) rest.0 ∙ take-add room (sum rooms) bytes, rest.1)

-- Of a frame that is larger than the first buffer, the reads that follow within the frame give every byte, but
-- only those that went into the first buffer are given back to the sender's window.
pub poll_reads-released_first :
    (bytes : Str) (frames : List Frame) (room : ℕ) (rooms : List ℕ)
    → room < length bytes
    → All (λ more. 0 < more) rooms
    → room + sum rooms ≤ length bytes
    → ((poll_reads http2 (Http2.new (chunk bytes ∷ frames)) (room ∷ rooms)).1
        ≡ take (room + sum rooms) bytes)
      × ((poll_reads http2 (Http2.new (chunk bytes ∷ frames)) (room ∷ rooms)).0.released ≡ room)
unfolding Http2.poll_read
poll_reads-released_first bytes frames room rooms larger some_room fits =
    let all : min (length bytes) room ≡ room = omega arith in
    let more : ltb room (length bytes) ≡ true = ground arith in
    let next : Http2Stream = record {
      recv_stream = frames;
      released = 0 + room;
      read_buf = some (drop room bytes);
    } in
    let rest =
      reads_buffered rooms next (drop room bytes)
        (some-keep_nonempty (drop room bytes) (omega (arith, length-drop room bytes))) some_room
        (omega (arith, length-drop room bytes)) in
    rw (all, more)
      (
        ap (λ t. take room bytes ++ t) rest.0 ∙ take-add room (sum rooms) bytes,
        rest.1 ∙ omega arith,
      )
