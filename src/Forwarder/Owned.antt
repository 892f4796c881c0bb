-- ===== src/Forwarder/Owned.antt =====
-- What the forwarder's connection cache holds: connections of their own target, and not too many.
use tls_tunnel.Prelude.{
  ℕ, zero, suc, ◌≤◌, ◌≡◌, refl, subst, ◌∙◌, Bool, true, false, Option, none, some, List, [], ◌∷◌,
  length, retain, ltb, Str, Table, lookup, insert, nat_eq, list_eq, Outcome, ok, err, map, arith,
  All, Entries, Entries-insert, Entries-lookup, Option-cases, if_both, if_cases, inl, inr,
  All-retain, length-retain-le, ltb→lt,
}
use tls_tunnel.Forwarder.Cache.{
  PooledConnection, ConnectionPool, Dial, DialError, dial_new, is_fresh, pop_usable, or_dial,
  cached, get_or_create, return_connection, cleanup_expired, ReusableConnection, reusable_new,
  mark_error, drop_connection,
}
use tls_tunnel.Forwarder.Exclusive.{
  Users, Event, acquire, finish, tidy, start, keep_taken, take_out, finished, step, run, NewSockets,
  places, run-exclusive,
}

some_path : {c d : ReusableConnection} → some c ≡ some d → c ≡ d
some_path e = cc

module _ (origin : ℕ → Str) (size : ℕ) where
  -- A pool of a target, whose connections lead to that target.
  abbrev pub IsOwn : Str → List PooledConnection → Type 0
  IsOwn target pool =
      All (λ (p : PooledConnection). origin p.stream ≡ target) pool × (length pool ≤ size)

  abbrev pub LeadsTo : Str → Option ℕ → Type 0
  LeadsTo target none = Unit
  LeadsTo target (some stream) = origin stream ≡ target

  pub record AreOwned (w : Users) : Type 0 where
    pub limit : w.cache.max_pool_size ≡ size
    pub own : Entries IsOwn w.cache.pools
    pub taken : All (λ (c : ReusableConnection). LeadsTo c.target c.stream) w.busy

  pop_usable-IsOwn :
      (target : Str) (fresh : PooledConnection → Bool) (alive : ℕ → Bool)
      (pool : List PooledConnection)
      → IsOwn target pool
      → IsOwn target (pop_usable fresh alive pool).0
        × LeadsTo target (pop_usable fresh alive pool).1
  unfolding pop_usable
  pop_usable-IsOwn target fresh alive [] h = ((tt, omega arith), tt)
  pop_usable-IsOwn target fresh alive (p ∷ pool) h =
      ground (arith, h, pop_usable-IsOwn target fresh alive pool (h.0.1, omega (arith, h.1)))

  abbrev pub Gets : Str → ConnectionPool × Outcome DialError ℕ → Type 0
  Gets target (m, ok stream) =
      Entries IsOwn m.pools × (m.max_pool_size ≡ size) × (origin stream ≡ target)
  Gets target (m, err e) = Entries IsOwn m.pools × (m.max_pool_size ≡ size)

  dial_new-Gets :
      (m : ConnectionPool) (target : Str) (d : Dial)
      → LeadsTo target d.connected
      → Entries IsOwn m.pools
      → m.max_pool_size ≡ size
      → Gets target (m, dial_new d)
  unfolding dial_new
  dial_new-Gets m target d leads own limit = ground (arith, leads, own, limit)

  or_dial-Gets :
      (m : ConnectionPool) (target : Str) (d : Dial) (popped : Option ℕ)
      → LeadsTo target d.connected
      → LeadsTo target popped
      → Entries IsOwn m.pools
      → m.max_pool_size ≡ size
      → Gets target (m, or_dial d popped)
  unfolding dial_new
  or_dial-Gets m target d (some stream) leads there own limit = (own, limit, there)
  or_dial-Gets m target d none leads there own limit = dial_new-Gets m target d leads own limit

  get_or_create-Gets :
      (m : ConnectionPool) (target : Str) (now : ℕ) (alive : ℕ → Bool) (d : Dial)
      → LeadsTo target d.connected
      → Entries IsOwn m.pools
      → m.max_pool_size ≡ size
      → Gets target (get_or_create m target now alive d)
  unfolding get_or_create
  get_or_create-Gets m target now alive d leads own limit =
      elim (Option-cases (lookup target m.pools)) [
        | inl missing ↦ rw (missing, get_or_create) (dial_new-Gets m target d leads own limit)
        | inr (pool, found) ↦
            let popped =
              pop_usable-IsOwn target (is_fresh m now) alive pool
                (Entries-lookup IsOwn target m.pools own pool found) in
            rw (found, get_or_create)
              (or_dial-Gets
                (record m {
                  pools = insert target (pop_usable (is_fresh m now) alive pool).0 m.pools;
                })
                target d (pop_usable (is_fresh m now) alive pool).1 leads popped.1
                (Entries-insert IsOwn target _ m.pools popped.0 own) limit)
      ]

  cached-IsOwn :
      (m : ConnectionPool) (target : Str) → Entries IsOwn m.pools → IsOwn target (cached m target)
  cached-IsOwn m target own = elim (Option-cases (lookup target m.pools)) [
    | inl missing ↦ rw (missing, cached) (tt, omega arith)
    | inr (pool, found) ↦ rw (found, cached) (Entries-lookup IsOwn target m.pools own pool found)
  ]

  return_connection-Entries :
      (m : ConnectionPool) (target : Str) (stream now : ℕ)
      → origin stream ≡ target
      → Entries IsOwn m.pools
      → m.max_pool_size ≡ size
      → Entries IsOwn (return_connection m target stream now).pools
  unfolding return_connection
  return_connection-Entries m target stream now leads own limit =
      let pool = cached-IsOwn m target own in
      Entries-insert IsOwn target _ m.pools
        (if_cases (IsOwn target) (ltb (length (cached m target)) m.max_pool_size)
          (λ below. (
            (leads, pool.0),
            omega (arith, ltb→lt (length (cached m target)) m.max_pool_size below, limit),
          ))
          (λ full. pool))
        own

  drop_connection-Entries :
      (m : ConnectionPool) (c : ReusableConnection) (now : ℕ)
      → LeadsTo c.target c.stream
      → Entries IsOwn m.pools
      → m.max_pool_size ≡ size
      → Entries IsOwn (drop_connection m c now).pools
  unfolding drop_connection
  drop_connection-Entries m c now leads own limit = elim (Option-cases c.stream) [
    | inl gone ↦ rw (gone, drop_connection) own
    | inr (stream, there) ↦
        rw (there, drop_connection)
          (if_both (λ (n : ConnectionPool). Entries IsOwn n.pools) c.had_error own
            (return_connection-Entries m c.target stream now (subst (LeadsTo c.target) there leads)
              own limit))
  ]

  drop_connection-limit :
      (m : ConnectionPool) (c : ReusableConnection) (now : ℕ)
      → (drop_connection m c now).max_pool_size ≡ m.max_pool_size
  unfolding drop_connection return_connection
  drop_connection-limit m c now = ground arith

  tidy-Entries :
      (f : PooledConnection → Bool) (m : Table Str (List PooledConnection))
      → Entries IsOwn m
      → Entries IsOwn (map (λ (e : Str × List PooledConnection). (e.0, retain f e.1)) m)
  tidy-Entries f [] h = tt
  tidy-Entries f ((k, l) ∷ m) h = (
    (
      All-retain (λ (p : PooledConnection). origin p.stream ≡ k) f l h.0.0,
      omega (arith, length-retain-le f l, h.0.1),
    ),
    tidy-Entries f m h.1,
  )

  take_out-LeadsTo :
      (task : ℕ) (busy : List ReusableConnection)
      → All (λ (c : ReusableConnection). LeadsTo c.target c.stream) busy
      → All (λ (c : ReusableConnection). LeadsTo c.target c.stream) (take_out task busy).1
        × ((c : ReusableConnection) → (take_out task busy).0 ≡ some c → LeadsTo c.target c.stream)
  take_out-LeadsTo task [] h = (tt, λ c e. absurd (cc e))
  take_out-LeadsTo zero (d ∷ busy) h =
      (h.1, λ c e. subst (λ (x : ReusableConnection). LeadsTo x.target x.stream) (some_path e) h.0)
  take_out-LeadsTo (suc task) (d ∷ busy) h =
      let rest = take_out-LeadsTo task busy h.1 in ((h.0, rest.0), rest.1)

  keep_taken-AreOwned :
      (target : Str) (got : ConnectionPool × Outcome DialError ℕ) (busy : List ReusableConnection)
      → Gets target got
      → All (λ (c : ReusableConnection). LeadsTo c.target c.stream) busy
      → AreOwned (keep_taken target got busy)
  unfolding reusable_new
  keep_taken-AreOwned target (m, ok stream) busy g h = record {
    limit = g.1;
    own = g.0;
    taken = (g.2, h);
  }
  keep_taken-AreOwned target (m, err e) busy g h = record { limit = g.1; own = g.0; taken = h }

  finished-Owned :
      (m : ConnectionPool) (failed : Bool) (now : ℕ) (out : Option ReusableConnection)
      → Entries IsOwn m.pools
      → m.max_pool_size ≡ size
      → ((c : ReusableConnection) → out ≡ some c → LeadsTo c.target c.stream)
      → Entries IsOwn (finished m failed now out).pools
        × ((finished m failed now out).max_pool_size ≡ size)
  unfolding finished mark_error
  finished-Owned m failed now none own limit leads = (own, limit)
  finished-Owned m true now (some c) own limit leads = (
    drop_connection-Entries m (mark_error c) now (leads c refl) own limit,
    drop_connection-limit m (mark_error c) now ∙ limit,
  )
  finished-Owned m false now (some c) own limit leads = (
    drop_connection-Entries m c now (leads c refl) own limit,
    drop_connection-limit m c now ∙ limit,
  )

  -- A dial that succeeds leads to the target that was dialled.
  abbrev pub DialsTarget : Event → Type 0
  DialsTarget (acquire target now alive d) = LeadsTo target d.connected
  DialsTarget (finish task failed now) = Unit
  DialsTarget (tidy now) = Unit

  step-AreOwned : (w : Users) (e : Event) → DialsTarget e → AreOwned w → AreOwned (step w e)
  unfolding step cleanup_expired
  step-AreOwned w (acquire target now alive d) dials h =
      keep_taken-AreOwned target (get_or_create w.cache target now alive d) w.busy
        (get_or_create-Gets w.cache target now alive d dials h.own h.limit) h.taken
  step-AreOwned w (finish task failed now) dials h =
      let out = take_out-LeadsTo task w.busy h.taken in
      let kept = finished-Owned w.cache failed now (take_out task w.busy).0 h.own h.limit out.1 in
      record { limit = kept.1; own = kept.0; taken = out.0 }
  step-AreOwned w (tidy now) dials h = record {
    limit = h.limit;
    own = tidy-Entries (is_fresh w.cache now) w.cache.pools h.own;
    taken = h.taken;
  }

  run-AreOwned_from :
      (es : List Event) (w : Users) → All DialsTarget es → AreOwned w → AreOwned (run w es)
  unfolding run
  run-AreOwned_from [] w dials h = h
  run-AreOwned_from (e ∷ es) w dials h =
      run-AreOwned_from es (step w e) dials.1 (step-AreOwned w e dials.0 h)

run-AreOwned :
    (origin : ℕ → Str) (size idle : ℕ) (es : List Event)
    → All (DialsTarget origin size) es
    → AreOwned origin size (run (start size idle) es)
run-AreOwned origin size idle es dials =
    run-AreOwned_from origin size es (start size idle) dials
      (record { limit = refl; own = tt; taken = tt })

-- Over any history in which a dial leads to its target and gives a new socket: each pool holds only connections
-- to its own target, at most the limit of them; what a task has taken leads to the target that it asked for;
-- and `socket` is in one place at most, so that no two tasks share a connection.
pub run-users :
    (origin : ℕ → Str) (size idle socket : ℕ) (es : List Event)
    → All (DialsTarget origin size) es
    → NewSockets (start size idle) es
    → AreOwned origin size (run (start size idle) es)
      × (places socket (run (start size idle) es) ≤ 1)
run-users origin size idle socket es dials new =
    (run-AreOwned origin size idle es dials, run-exclusive size idle socket es new)
