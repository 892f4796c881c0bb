-- ===== src/Control/Delivery.antt =====
-- What the client writes to the control stream reaches the server's event loop:
-- src/server/control_channel.rs.
use tls_tunnel.Prelude.{
  ℕ, zero, suc, ◌+◌, ◌≤◌, ◌<◌, ◌≡◌, ◌*◌, refl, ap, ◌∙◌, none, some, drop, List, [], ◌∷◌, ◌++◌,
  length, Str, arith, All,
}
use tls_tunnel.Control.Framing.{max_message, encode, read_frame, read_frame-encode, read_body_large}
use tls_tunnel.Control.Channel.{
  Json, connection_closed, Reading, handle_message, continue_with, read_messages, Call, finishes,
  cancelled, length_too_large,
}

abbrev pub encode_all : List Str → Str
encode_all [] = []
encode_all (m ∷ ms) = encode m ++ encode_all ms

-- No call is dropped that has taken a byte.
abbrev pub IsWhole : Call → Type 0
IsWhole finishes = Unit
IsWhole (cancelled taken) = taken ≡ 0

abbrev pub finished : List Call → ℕ
finished [] = 0
finished (finishes ∷ calls) = suc (finished calls)
finished (cancelled taken ∷ calls) = finished calls

module _ {Value : Type 0} (json : Json Value) where
  -- With so many calls each message in turn gives its event; the first that fails ends the reading, and behind
  -- the last one stands the end of the connection.
  abbrev pub handled : ℕ → List Str → Reading Value
  handled zero ms = record { events = []; failure = none }
  handled (suc calls) [] = record { events = connection_closed ∷ []; failure = none }
  handled (suc calls) (m ∷ ms) = continue_with json (handle_message json m) (handled calls ms)

  -- The messages that a client frames, of at most 10 MiB each, are handled one by one in their order, one for
  -- each call of read_message that ends, and the end of the stream is the last event: none is lost, cut or joined
  -- with another, if no call is dropped by select! once it has taken a byte.
  pub read_messages-encode_all :
      (calls : List Call) (ms : List Str)
      → All IsWhole calls
      → All (λ m. length m ≤ max_message) ms
      → read_messages json calls (encode_all ms) ≡ handled (finished calls) ms
  unfolding read_messages read_frame
  read_messages-encode_all [] ms whole small = refl
  read_messages-encode_all (cancelled taken ∷ calls) ms whole small =
      ap (λ n. read_messages json calls (drop n (encode_all ms))) whole.0
      ∙ read_messages-encode_all calls ms whole.1 small
  read_messages-encode_all (finishes ∷ calls) [] whole small = refl
  read_messages-encode_all (finishes ∷ calls) (m ∷ ms) whole small =
      rw (read_frame-encode m (encode_all ms) small.0, read_messages)
        (ap (continue_with json (handle_message json m))
          (read_messages-encode_all calls ms whole.1 small.1))

  -- If select! drops a call that has read the four bytes of a length, the next call takes the first four bytes of
  -- the message for one. When the first of these is not 0, as in every text of JSON, that is more than 10 MiB, and
  -- the reading fails, whatever follows.
  pub read_messages-length_lost :
      (a b c d : ℕ) (m rest : Str) (calls : List Call)
      → 0 < a
      → read_messages json (cancelled 4 ∷ finishes ∷ calls) (encode (a ∷ b ∷ c ∷ d ∷ m) ++ rest)
        ≡ record {
          events = [];
          failure = some (length_too_large (a * 16777216 + b * 65536 + c * 256 + d));
        }
  unfolding read_messages read_frame encode
  read_messages-length_lost a b c d m rest calls h = rw (
    read_body_large (a * 16777216 + b * 65536 + c * 256 + d) (m ++ rest) (omega arith),
    read_messages,
  )
