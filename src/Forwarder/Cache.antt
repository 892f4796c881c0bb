-- ===== src/Forwarder/Cache.antt =====
-- `ConnectionPool` and `ReusableConnection` of src/client/forwarder.rs. A socket is a number. What the
-- outside answers is an argument: the time, whether a socket is still alive, and the new connection.
use tls_tunnel.Prelude.{
  ℕ, ◌-◌, Bool, true, false, Option, none, some, List, [], ◌∷◌, length, retain, ltb, ◌&&◌,
  if◌then◌else◌, Str, Table, lookup, insert, nat_eq, list_eq, Outcome, ok, err, map,
}

pub record PooledConnection : Type 0 where
  pub stream : ℕ
  pub created_at : ℕ

-- A `Vec` that is used as a stack; its end stands first.
pub record ConnectionPool : Type 0 where
  pub pools : Table Str (List PooledConnection)
  pub max_pool_size : ℕ
  pub max_idle_time : ℕ

-- `TcpStream::connect`, then `set_nodelay`.
pub record Dial : Type 0 where
  pub connected : Option ℕ
  pub nodelay : Bool

pub data DialError : Type 0 where
  connect_failed nodelay_failed : DialError

unfoldable pub dial_new : Dial → Outcome DialError ℕ
dial_new d = elim d.connected [
  | none ↦ err connect_failed
  | some stream ↦ if d.nodelay then ok stream else err nodelay_failed
]

abbrev pub is_fresh : ConnectionPool → ℕ → PooledConnection → Bool
is_fresh m now p = ltb (now - p.created_at) m.max_idle_time

-- The `while let`: what is left of the pool, and a connection that is neither old nor dead.
unfoldable pub pop_usable :
    (PooledConnection → Bool)
    → (ℕ → Bool)
    → List PooledConnection
    → List PooledConnection × Option ℕ
pop_usable fresh alive [] = ([], none)
pop_usable fresh alive (p ∷ rest) =
    let later = pop_usable fresh alive rest in
    if fresh p && alive p.stream then (rest, some p.stream) else later

abbrev pub or_dial : Dial → Option ℕ → Outcome DialError ℕ
unfolding dial_new
or_dial d (some stream) = ok stream
or_dial d none = dial_new d

abbrev pub cached : ConnectionPool → Str → List PooledConnection
cached m target = elim (lookup target m.pools) [ none ↦ [] | some pool ↦ pool ]

unfoldable pub get_or_create :
    ConnectionPool → Str → ℕ → (ℕ → Bool) → Dial → ConnectionPool × Outcome DialError ℕ
unfolding dial_new
get_or_create m target now alive d = elim (lookup target m.pools) [
  | none ↦ (m, dial_new d)
  | some pool ↦
      let popped = pop_usable (is_fresh m now) alive pool in
      (record m { pools = insert target popped.0 m.pools }, or_dial d popped.1)
]

unfoldable pub return_connection : ConnectionPool → Str → ℕ → ℕ → ConnectionPool
return_connection m target stream now =
    let pool = cached m target in
    record m {
      pools =
          insert target
            (if ltb (length pool) m.max_pool_size
              then record { stream = stream; created_at = now } ∷ pool
              else pool)
            m.pools;
    }

unfoldable pub cleanup_expired : ConnectionPool → ℕ → ConnectionPool
cleanup_expired m now = record m {
  pools = map (λ (e : Str × List PooledConnection). (e.0, retain (is_fresh m now) e.1)) m.pools;
}

pub record ReusableConnection : Type 0 where
  pub stream : Option ℕ
  pub target : Str
  pub had_error : Bool

unfoldable pub reusable_new : ℕ → Str → ReusableConnection
reusable_new stream target = record { stream = some stream; target = target; had_error = false }

unfoldable pub mark_error : ReusableConnection → ReusableConnection
mark_error c = record c { had_error = true }

-- `drop`; the task that it spawns returns the connection at `now`.
unfoldable pub drop_connection : ConnectionPool → ReusableConnection → ℕ → ConnectionPool
drop_connection m c now = elim c.stream [
  | none ↦ m
  | some stream ↦ if c.had_error then m else return_connection m c.target stream now
]
