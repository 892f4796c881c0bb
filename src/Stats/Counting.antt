-- ===== src/Stats/Counting.antt =====
-- The counters of src/stats.rs count: a tracker shows the connections that are open.
use tls_tunnel.Prelude.{ℕ, suc, ◌+◌, ◌^◌, ◌≤◌, ◌<◌, ◌≡◌, List, [], ◌∷◌, arith, Str}
use tls_tunnel.Stats.Tracker.{
  Tracker, tracker_new, connection_started, connection_ended, add_bytes_sent, add_bytes_received,
}

-- What the connections of one proxy do to its tracker.
pub data Event : Type 0 where
  started ended : Event
  sent received : ℕ → Event

unfoldable pub count : Tracker → Event → Tracker
count t started = connection_started t
count t ended = connection_ended t
count t (sent n) = add_bytes_sent n t
count t (received n) = add_bytes_received n t

unfoldable pub count_all : Tracker → List Event → Tracker
unfolding count
count_all t [] = t
count_all t (e ∷ es) = count_all (count t e) es

-- With `live` connections open now, no connection ends that was not started; `left` are open at
-- the end. A guard object ends each connection once.
pub data Guarded : ℕ → List Event → ℕ → Type 0 where
  stop : (n : ℕ) → Guarded n [] n
  start : {n m : ℕ} {es : List Event} → Guarded (suc n) es m → Guarded n (started ∷ es) m
  end : {n m : ℕ} {es : List Event} → Guarded n es m → Guarded (suc n) (ended ∷ es) m
  send : {n m : ℕ} {es : List Event} (k : ℕ) → Guarded n es m → Guarded n (sent k ∷ es) m
  receive : {n m : ℕ} {es : List Event} (k : ℕ) → Guarded n es m → Guarded n (received k ∷ es) m

abbrev pub starts : List Event → ℕ
starts [] = 0
starts (started ∷ es) = starts es + 1
starts (e ∷ es) = starts es

abbrev pub bytes_out : List Event → ℕ
bytes_out [] = 0
bytes_out (sent k ∷ es) = bytes_out es + k
bytes_out (e ∷ es) = bytes_out es

abbrev pub bytes_in : List Event → ℕ
bytes_in [] = 0
bytes_in (received k ∷ es) = bytes_in es + k
bytes_in (e ∷ es) = bytes_in es

pub record Shows (t : Tracker) (live total out into : ℕ) : Type 0 where
  pub active : t.active_connections ≡ live
  pub counted : t.total_connections ≡ total
  pub sent_bytes : t.bytes_sent ≡ out
  pub received_bytes : t.bytes_received ≡ into

counts_from :
    (t : Tracker) {n m : ℕ} (es : List Event) (total out into : ℕ)
    → Guarded n es m
    → Shows t n total out into
    → n ≤ total
    → total + starts es < 2 ^ 64
    → out + bytes_out es < 2 ^ 64
    → into + bytes_in es < 2 ^ 64
    → Shows (count_all t es) m (total + starts es) (out + bytes_out es) (into + bytes_in es)
unfolding count_all connection_started connection_ended add_bytes_sent add_bytes_received
counts_from t [] total out into (stop n) s le h k l = omega (arith, s)
counts_from t (started ∷ es) total out into (start g) s le h k l = omega (
  arith,
  counts_from (connection_started t) es (total + 1) out into g (omega (arith, s)) (omega arith)
      (omega arith) (omega arith) (omega arith),
)
counts_from t (ended ∷ es) total out into (end g) s le h k l = omega (
  arith,
  counts_from (connection_ended t) es total out into g (omega (arith, s)) (omega arith)
      (omega arith) (omega arith) (omega arith),
)
counts_from t (sent j ∷ es) total out into (send _ g) s le h k l = omega (
  arith,
  counts_from (add_bytes_sent j t) es total (out + j) into g (omega (arith, s)) (omega arith)
      (omega arith) (omega arith) (omega arith),
)
counts_from t (received j ∷ es) total out into (receive _ g) s le h k l = omega (
  arith,
  counts_from (add_bytes_received j t) es total out (into + j) g (omega (arith, s)) (omega arith)
      (omega arith) (omega arith) (omega arith),
)

-- While guards end each connection once, a tracker shows the connections that are open, those that
-- were opened and the bytes of both directions, up to 2 ^ 64 of each.
pub counts_connections :
    (name addr : Str) (port local now : ℕ) {m : ℕ} (es : List Event)
    → Guarded 0 es m
    → starts es < 2 ^ 64
    → bytes_out es < 2 ^ 64
    → bytes_in es < 2 ^ 64
    → Shows
        (count_all (tracker_new name addr port local now) es)
        m
        (starts es)
        (bytes_out es)
        (bytes_in es)
unfolding tracker_new
counts_connections name addr port local now es g h k l = omega (
  arith,
  counts_from (tracker_new name addr port local now) es 0 0 0 g (omega arith) (omega arith)
      (omega arith) (omega arith) (omega arith),
)
