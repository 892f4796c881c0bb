-- ===== src/Control/Tests.antt =====
-- A client's messages on the control stream of src/server/control_channel.rs.
use tls_tunnel.Prelude.{
  ℕ, ◌≡◌, ◌++◌, List, refl, none, some, [], ◌∷◌, codes, arith, ◌==◌, nat_eq, list_eq, if◌then◌else◌,
}
use tls_tunnel.Visitor.Wire.{read_exact}
use tls_tunnel.Control.Framing.{encode}
use tls_tunnel.Control.Channel.{
  Json, authenticate_request, heartbeat_event, connection_closed, unknown_method, read_messages,
  Call, finishes, cancelled, length_too_large,
}
use tls_tunnel.Control.Delivery.{
  encode_all, handled, read_messages-encode_all, read_messages-length_lost,
}

-- Messages of one byte: "a" authenticates, "h" is a heartbeat, "x" an unknown method.
abbrev json : Json ℕ
json = record {
  null = 0;
  request = λ body.
      if body == codes "a"
      then some (record { method = codes "authenticate"; params = 1; id = some 7 })
      else if body == codes "h"
      then some (record { method = codes "heartbeat"; params = 0; id = none })
      else if body == codes "x"
      then some (record { method = codes "exit"; params = 0; id = none })
      else none;
  authenticate_params = λ v. some (codes "key", codes "1.4.1");
  submit_config_params = λ v. none;
}

-- A call that is dropped before it has taken a byte is repeated.
abbrev calls : List Call
calls = finishes ∷ cancelled 0 ∷ finishes ∷ finishes ∷ []

read_messages-encode_all_example :
    read_messages json calls (encode_all (codes "a" ∷ codes "h" ∷ []))
    ≡ handled json 3 (codes "a" ∷ codes "h" ∷ [])
read_messages-encode_all_example =
    read_messages-encode_all json calls (codes "a" ∷ codes "h" ∷ []) (tt, (refl, (tt, (tt, tt))))
      (omega arith, (omega arith, tt))

read_messages-length_lost_example :
    read_messages json (cancelled 4 ∷ finishes ∷ []) (encode (codes "{   }") ++ [])
    ≡ record { events = []; failure = some (length_too_large 2065702944) }
read_messages-length_lost_example =
    read_messages-length_lost json 123 32 32 32 (codes "}") [] [] (omega arith)

authenticates :
    (read_messages json calls (encode_all (codes "a" ∷ codes "h" ∷ []))).events
    ≡ authenticate_request 7 (codes "key") ∷ heartbeat_event ∷ connection_closed ∷ []
unfolding read_messages encode read_exact
authenticates = refl

stops_at_unknown_method :
    (read_messages json calls (encode_all (codes "x" ∷ codes "h" ∷ []))).failure
    ≡ some (unknown_method (codes "exit"))
unfolding read_messages encode read_exact
stops_at_unknown_method = refl
