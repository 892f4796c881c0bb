-- ===== src/Server/Connection.antt =====
-- `handle_proxy_connection` of src/server/connection.rs: a connection to a published port.
use tls_tunnel.Prelude.{
  ℕ, ◌<◌, ◌≡◌, ◌↔◌, refl, Bool, true, false, [], Str, Outcome, ok, err, if◌then◌else◌, arith,
}
use tls_tunnel.Config.Types.{ProxyType, needs_nodelay}
use tls_tunnel.Stats.Tracker.{
  Tracker, connection_started, connection_ended, add_bytes_sent, add_bytes_received, fetch_add,
  u64_mod,
}
use tls_tunnel.Visitor.Wire.{u16_bytes}

pub data ConnectionError : Type 0 where
  request_failed no_stream header_failed : ConnectionError

-- What the session and the sockets answer: whether the session takes the request for a stream and gives one,
-- whether the header is written and flushed, and how the copying ends each way, with the bytes copied.
pub record Answers : Type 0 where
  pub requested : Bool
  pub stream : Bool
  pub header_sent : Bool
  pub inbound_to_stream : Outcome (Unit {0}) ℕ
  pub stream_to_inbound : Outcome (Unit {0}) ℕ

-- What the handler leaves: its tracker, whether the socket is asked not to delay, and the header on the stream.
pub record Handled : Type 0 where
  pub tracker : Tracker
  pub nodelay : Bool
  pub header : Str
  pub result : Outcome ConnectionError (Unit {0})

abbrev pub count_received : Outcome (Unit {0}) ℕ → Tracker → Tracker
count_received (ok bytes) t = add_bytes_received bytes t
count_received (err e) t = t

abbrev pub count_sent : Outcome (Unit {0}) ℕ → Tracker → Tracker
count_sent (ok bytes) t = add_bytes_sent bytes t
count_sent (err e) t = t

-- `join!` waits for both copies, so that their order does not matter to the counters.
unfoldable pub relay : Tracker → Bool → ℕ → Answers → Handled
relay t nodelay publish_port a =
    if a.header_sent
    then record {
      tracker = count_sent a.stream_to_inbound (count_received a.inbound_to_stream t);
      nodelay = nodelay;
      header = u16_bytes publish_port;
      result = ok tt;
    }
    else record { tracker = t; nodelay = nodelay; header = []; result = err header_failed }

-- The guard ends the connection whatever the handler returns.
abbrev pub drop_guard : Handled → Handled
drop_guard h = record h { tracker = connection_ended h.tracker }

unfoldable pub handle_proxy_connection : Tracker → ProxyType → ℕ → Answers → Handled
unfolding relay needs_nodelay connection_started connection_ended add_bytes_sent add_bytes_received
handle_proxy_connection tracker proxy_type publish_port a =
    let nodelay = needs_nodelay proxy_type in
    let t = connection_started tracker in
    drop_guard (
      if a.requested
      then (if a.stream
          then relay t nodelay publish_port a
          else record { tracker = t; nodelay = nodelay; header = []; result = err no_stream })
      else record { tracker = t; nodelay = nodelay; header = []; result = err request_failed })

-- The bytes of a copy that ended well.
abbrev pub copied : Outcome (Unit {0}) ℕ → ℕ
copied (ok bytes) = bytes
copied (err e) = 0

abbrev pub reaches_client : Answers → Bool
reaches_client a = if a.requested then (if a.stream then a.header_sent else false) else false

-- What a connection leaves of its tracker.
pub record Counts (before : Tracker) (received sent : ℕ) (after : Tracker) : Type 0 where
  pub total : after.total_connections ≡ fetch_add before.total_connections 1
  pub active : after.active_connections ≡ before.active_connections
  pub received_all : after.bytes_received ≡ fetch_add before.bytes_received received
  pub sent_all : after.bytes_sent ≡ fetch_add before.bytes_sent sent

abbrev pub HandledWell : Tracker → ℕ → Answers → Handled → Type 0
HandledWell t publish_port a h =
    Counts t (if reaches_client a then copied a.inbound_to_stream else 0)
      (if reaches_client a then copied a.stream_to_inbound else 0) h.tracker
    × (h.header ≡ (if reaches_client a then u16_bytes publish_port else []))
    × ((h.result ≡ ok tt) ↔ (reaches_client a ≡ true))

-- Counters of 64 bits.
pub record IsWord (t : Tracker) : Type 0 where
  pub active : t.active_connections < u64_mod
  pub received : t.bytes_received < u64_mod
  pub sent : t.bytes_sent < u64_mod

module _ (t : Tracker) (w : IsWord t) where
  relayed-Counts :
      (i o : Outcome (Unit {0}) ℕ)
      → Counts t
          (copied i)
          (copied o)
          (connection_ended (count_sent o (count_received i (connection_started t))))
  unfolding connection_started connection_ended add_bytes_sent add_bytes_received fetch_add
  relayed-Counts (ok m) (ok n) = record {
    total = refl;
    active = ground arith;
    received_all = refl;
    sent_all = refl;
  }
  relayed-Counts (ok m) (err e) = record {
    total = refl;
    active = ground arith;
    received_all = refl;
    sent_all = ground arith;
  }
  relayed-Counts (err e) (ok n) = record {
    total = refl;
    active = ground arith;
    received_all = ground arith;
    sent_all = refl;
  }
  relayed-Counts (err e) (err f) = record {
    total = refl;
    active = ground arith;
    received_all = ground arith;
    sent_all = ground arith;
  }

  handled :
      (proxy_type : ProxyType) (publish_port : ℕ) (requested stream header_sent : Bool)
      (i o : Outcome (Unit {0}) ℕ)
      → let a : Answers = record {
        requested = requested;
        stream = stream;
        header_sent = header_sent;
        inbound_to_stream = i;
        stream_to_inbound = o;
      } in
        HandledWell t publish_port a (handle_proxy_connection t proxy_type publish_port a)
  unfolding handle_proxy_connection
  handled proxy_type publish_port false stream header_sent i o =
      (relayed-Counts (err tt) (err tt), refl, (λ e. absurd (cc e), λ e. absurd (cc e)))
  handled proxy_type publish_port true false header_sent i o =
      (relayed-Counts (err tt) (err tt), refl, (λ e. absurd (cc e), λ e. absurd (cc e)))
  handled proxy_type publish_port true true false i o =
      (relayed-Counts (err tt) (err tt), refl, (λ e. absurd (cc e), λ e. absurd (cc e)))
  handled proxy_type publish_port true true true i o =
      (relayed-Counts i o, refl, (λ e. refl, λ e. refl))

  -- However a connection to a published port goes, it is counted once and no more open when its handler
  -- returns. Its bytes are counted for each direction whose copy ended well, and for no other. The handler
  -- succeeds exactly if the session gave a stream and the header was sent, which is the port's two bytes.
  pub handle_proxy_connection-HandledWell :
      (proxy_type : ProxyType) (publish_port : ℕ) (a : Answers)
      → HandledWell t publish_port a (handle_proxy_connection t proxy_type publish_port a)
  handle_proxy_connection-HandledWell proxy_type publish_port a =
      handled proxy_type publish_port a.requested a.stream a.header_sent a.inbound_to_stream
        a.stream_to_inbound
