-- ===== src/Forwarder/Exclusive.antt =====
-- The users of the forwarder's connection cache over a history: who holds which connection.
use tls_tunnel.Prelude.{
  ℕ, zero, suc, ◌+◌, ◌≤◌, ◌≡◌, ap, ◌∙◌, Bool, true, false, Option, none, some, List, [], ◌∷◌,
  length, retain, ltb, if◌then◌else◌, Str, Table, lookup, insert, nat_eq, ◌==◌, list_eq, Outcome,
  ok, err, map, arith, Option-cases, if_both, Bool-cases, inl, inr,
}
use tls_tunnel.Forwarder.Cache.{
  PooledConnection, ConnectionPool, Dial, DialError, dial_new, is_fresh, pop_usable, cached,
  get_or_create, return_connection, cleanup_expired, ReusableConnection, reusable_new, mark_error,
  drop_connection,
}

-- The cache, and the connections that tasks have taken and not yet dropped.
pub record Users : Type 0 where
  pub cache : ConnectionPool
  pub busy : List ReusableConnection

pub data Event : Type 0 where
  acquire : (target : Str) (now : ℕ) (alive : ℕ → Bool) (d : Dial) → Event
  finish : (task : ℕ) (failed : Bool) (now : ℕ) → Event
  tidy : (now : ℕ) → Event

abbrev pub start : ℕ → ℕ → Users
start size idle = record {
  cache = record { pools = []; max_pool_size = size; max_idle_time = idle };
  busy = [];
}

abbrev pub keep_taken : Str → ConnectionPool × Outcome DialError ℕ → List ReusableConnection → Users
unfolding reusable_new
keep_taken target (m, ok stream) busy = record {
  cache = m;
  busy = reusable_new stream target ∷ busy;
}
keep_taken target (m, err e) busy = record { cache = m; busy = busy }

abbrev pub take_out :
    ℕ → List ReusableConnection → Option ReusableConnection × List ReusableConnection
take_out task [] = (none, [])
take_out zero (c ∷ busy) = (some c, busy)
take_out (suc task) (c ∷ busy) = let rest = take_out task busy in (rest.0, c ∷ rest.1)

unfoldable pub finished : ConnectionPool → Bool → ℕ → Option ReusableConnection → ConnectionPool
unfolding mark_error
finished m failed now none = m
finished m failed now (some c) = drop_connection m (if failed then mark_error c else c) now

unfoldable pub step : Users → Event → Users
unfolding finished
step w (acquire target now alive d) =
    keep_taken target (get_or_create w.cache target now alive d) w.busy
step w (finish task failed now) =
    let out = take_out task w.busy in
    record { cache = finished w.cache failed now out.0; busy = out.1 }
step w (tidy now) = record w { cache = cleanup_expired w.cache now }

unfoldable pub run : Users → List Event → Users
run w [] = w
run w (e ∷ es) = run (step w e) es

-- How often a socket stands in the cache, and with the tasks.
abbrev pub one : Bool → ℕ
one true = 1
one false = 0

abbrev pub in_pool : ℕ → List PooledConnection → ℕ
in_pool s [] = 0
in_pool s (p ∷ pool) = one (p.stream == s) + in_pool s pool

abbrev pub in_pools : ℕ → Table Str (List PooledConnection) → ℕ
in_pools s [] = 0
in_pools s ((target, pool) ∷ rest) = in_pool s pool + in_pools s rest

abbrev pub held : ℕ → Option ℕ → ℕ
held s none = 0
held s (some stream) = one (stream == s)

abbrev pub in_busy : ℕ → List ReusableConnection → ℕ
in_busy s [] = 0
in_busy s (c ∷ busy) = held s c.stream + in_busy s busy

abbrev pub places : ℕ → Users → ℕ
places s w = in_pools s w.cache.pools + in_busy s w.busy

in_pools-insert :
    (s : ℕ) (target : Str) (pool : List PooledConnection) (m : Table Str (List PooledConnection))
    → in_pools s (insert target pool m)
        + in_pool s (elim (lookup target m) [ none ↦ [] | some l ↦ l ])
      ≡ in_pools s m + in_pool s pool
unfolding insert lookup
in_pools-insert s target pool [] = omega arith
in_pools-insert s target pool ((k, l) ∷ m) = ground (arith, in_pools-insert s target pool m)

pop_usable-places :
    (s : ℕ) (fresh : PooledConnection → Bool) (alive : ℕ → Bool) (pool : List PooledConnection)
    → in_pool s (pop_usable fresh alive pool).0 + held s (pop_usable fresh alive pool).1
      ≤ in_pool s pool
unfolding pop_usable
pop_usable-places s fresh alive [] = omega arith
pop_usable-places s fresh alive (p ∷ pool) = ground (arith, pop_usable-places s fresh alive pool)

retain-places :
    (s : ℕ) (f : PooledConnection → Bool) (pool : List PooledConnection)
    → in_pool s (retain f pool) ≤ in_pool s pool
retain-places s f [] = omega arith
retain-places s f (p ∷ pool) = ground (arith, retain-places s f pool)

tidy-places :
    (s : ℕ) (f : PooledConnection → Bool) (m : Table Str (List PooledConnection))
    → in_pools s (map (λ (e : Str × List PooledConnection). (e.0, retain f e.1)) m) ≤ in_pools s m
tidy-places s f [] = omega arith
tidy-places s f ((k, l) ∷ m) = omega (arith, retain-places s f l, tidy-places s f m)

take_out-places :
    (s task : ℕ) (busy : List ReusableConnection)
    → in_busy s (take_out task busy).1
        + elim ((take_out task busy).0) [ none ↦ 0 | some c ↦ held s c.stream ]
      ≡ in_busy s busy
take_out-places s task [] = omega arith
take_out-places s zero (c ∷ busy) = omega arith
take_out-places s (suc task) (c ∷ busy) = omega (arith, take_out-places s task busy)

abbrev dialled : ℕ → Outcome DialError ℕ → ℕ
dialled s (ok stream) = one (stream == s)
dialled s (err e) = 0

dial_new-places : (s : ℕ) (d : Dial) → dialled s (dial_new d) ≤ held s d.connected
unfolding dial_new
dial_new-places s d = ground arith

get_or_create-places :
    (s : ℕ) (m : ConnectionPool) (target : Str) (now : ℕ) (alive : ℕ → Bool) (d : Dial)
    → in_pools s (get_or_create m target now alive d).0.pools
        + dialled s (get_or_create m target now alive d).1
      ≤ in_pools s m.pools + held s d.connected
unfolding get_or_create
get_or_create-places s m target now alive d = elim (Option-cases (lookup target m.pools)) [
  | inl missing ↦ ground (arith, missing, dial_new-places s d)
  | inr (pool, found) ↦
      let popped = pop_usable (is_fresh m now) alive pool in
      let kept : in_pools s (insert target popped.0 m.pools) + in_pool s pool
          ≡ in_pools s m.pools + in_pool s popped.0 =
        ground (arith, found, in_pools-insert s target popped.0 m.pools) in
      ground
        (arith, found, kept, dial_new-places s d, pop_usable-places s (is_fresh m now) alive pool)
]

return_connection-places :
    (s : ℕ) (m : ConnectionPool) (target : Str) (stream now : ℕ)
    → in_pools s (return_connection m target stream now).pools
      ≤ in_pools s m.pools + one (stream == s)
unfolding return_connection
return_connection-places s m target stream now =
    let P = λ (pool : List PooledConnection).
      in_pools s (insert target pool m.pools) ≤ in_pools s m.pools + one (stream == s) in
    if_both P (ltb (length (cached m target)) m.max_pool_size)
      (omega (
        arith,
        in_pools-insert s target (record { stream = stream; created_at = now } ∷ cached m target)
            m.pools,
      ))
      (omega (arith, in_pools-insert s target (cached m target) m.pools))

drop_connection-places :
    (s : ℕ) (m : ConnectionPool) (c : ReusableConnection) (now : ℕ)
    → in_pools s (drop_connection m c now).pools ≤ in_pools s m.pools + held s c.stream
unfolding drop_connection
drop_connection-places s m c now = elim (Option-cases c.stream) [
  | inl gone ↦ ground (arith, gone)
  | inr (stream, there) ↦ ground (arith, there, return_connection-places s m c.target stream now)
]

finished-places :
    (s : ℕ) (m : ConnectionPool) (failed : Bool) (now : ℕ) (out : Option ReusableConnection)
    → in_pools s (finished m failed now out).pools
      ≤ in_pools s m.pools + elim out [ none ↦ 0 | some c ↦ held s c.stream ]
unfolding finished mark_error
finished-places s m failed now none = omega arith
finished-places s m true now (some c) = drop_connection-places s m (mark_error c) now
finished-places s m false now (some c) = drop_connection-places s m c now

-- What the kernel promises of a new socket: it is not one that is still open.
abbrev pub NewSocket : Users → Event → Type 0
NewSocket w (acquire target now alive d) = (s : ℕ) → d.connected ≡ some s → places s w ≡ 0
NewSocket w (finish task failed now) = Unit
NewSocket w (tidy now) = Unit

abbrev pub NewSockets : Users → List Event → Type 0
NewSockets w [] = Unit
NewSockets w (e ∷ es) = NewSocket w e × NewSockets (step w e) es

keep_taken-places :
    (s : ℕ) (target : Str) (got : ConnectionPool × Outcome DialError ℕ)
    (busy : List ReusableConnection)
    → places s (keep_taken target got busy)
      ≡ in_pools s got.0.pools + dialled s got.1 + in_busy s busy
unfolding reusable_new
keep_taken-places s target (m, ok stream) busy = omega arith
keep_taken-places s target (m, err e) busy = omega arith

module _ (s : ℕ) (w : Users) where
  acquire-places :
      (target : Str) (now : ℕ) (alive : ℕ → Bool) (d : Dial)
      → places s (step w (acquire target now alive d)) ≤ places s w + held s d.connected
  unfolding step
  acquire-places target now alive d = omega (
    arith,
    keep_taken-places s target (get_or_create w.cache target now alive d) w.busy,
    get_or_create-places s w.cache target now alive d,
  )

  -- A step leaves a socket in one place at most.
  step-places : (e : Event) → NewSocket w e → places s w ≤ 1 → places s (step w e) ≤ 1
  unfolding step cleanup_expired
  step-places (acquire target now alive d) new h = elim (Option-cases d.connected) [
    | inl refused ↦ omega (arith, acquire-places target now alive d, ap (held s) refused)
    | inr (t, opened) ↦
        let grown = acquire-places target now alive d in
        elim (Bool-cases (t == s)) [
          | inl same ↦
              let is : t ≡ s = ground (arith, same) in
              let free : places s w ≡ 0 = new s (opened ∙ ap some is) in
              let one_more : held s d.connected ≤ 1 = ground (arith, opened) in
              omega (arith, grown, free, one_more)
          | inr other ↦
              let no_more : held s d.connected ≡ 0 = ground (arith, opened, other) in
              omega (arith, grown, no_more)
        ]
  ]
  step-places (finish task failed now) new h = omega (
    arith,
    take_out-places s task w.busy,
    finished-places s w.cache failed now (take_out task w.busy).0,
  )
  step-places (tidy now) new h = omega (arith, tidy-places s (is_fresh w.cache now) w.cache.pools)

run-places :
    (s : ℕ) (es : List Event) (w : Users)
    → NewSockets w es
    → places s w ≤ 1
    → places s (run w es) ≤ 1
unfolding run
run-places s [] w new h = h
run-places s (e ∷ es) w new h = run-places s es (step w e) new.1 (step-places s w e new.0 h)

pub run-exclusive :
    (size idle s : ℕ) (es : List Event)
    → NewSockets (start size idle) es
    → places s (run (start size idle) es) ≤ 1
run-exclusive size idle s es new = run-places s es (start size idle) new (omega arith)
