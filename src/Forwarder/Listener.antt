-- ===== src/Forwarder/Listener.antt =====
-- The accept loop of `run_forwarder_listener` of src/client/forwarder.rs, one event for each thing that it, or
-- a task that it has spawned, comes to.
use tls_tunnel.Prelude.{
  ℕ, ◌+◌, ◌-◌, ◌≤◌, ◌≡◌, Bool, true, false, List, [], ◌∷◌, ltb, if◌then◌else◌, arith, not,
}

abbrev pub max_concurrent_connections : ℕ
max_concurrent_connections = 1000

-- The permits of the semaphore that are left, the connections that are handled, and whether the loop runs.
pub record Listener : Type 0 where
  pub permits : ℕ
  pub handled : ℕ
  pub running : Bool

pub data ListenerEvent : Type 0 where
  accepted accept_failed shut_down task_ended : ListenerEvent

abbrev pub listening : Listener
listening = record { permits = max_concurrent_connections; handled = 0; running = true }

-- `accepted` is a new connection: without a permit it is dropped. A task gives its permit back when it ends,
-- also when the loop no longer runs.
unfoldable pub on_listener_event : Listener → ListenerEvent → Listener
on_listener_event l accepted =
    if not l.running
    then l
    else if ltb 0 l.permits
    then record l { permits = l.permits - 1; handled = l.handled + 1 }
    else l
on_listener_event l accept_failed = l
on_listener_event l shut_down = record l { running = false }
on_listener_event l task_ended =
    if ltb 0 l.handled then record l { permits = l.permits + 1; handled = l.handled - 1 } else l

unfoldable pub on_listener_events : Listener → List ListenerEvent → Listener
on_listener_events l [] = l
on_listener_events l (e ∷ es) = on_listener_events (on_listener_event l e) es

-- Each permit is with the semaphore or with a connection, and no connection is handled beside them.
pub on_listener_events-permits :
    (es : List ListenerEvent) (l : Listener)
    → l.permits + l.handled ≡ max_concurrent_connections
    → ((on_listener_events l es).handled ≤ max_concurrent_connections)
      × (l.running ≡ false → (on_listener_events l es).handled ≤ l.handled)
unfolding on_listener_events on_listener_event
on_listener_events-permits [] l h = (omega arith, λ stopped. omega arith)
on_listener_events-permits (accepted ∷ es) l h =
    ground
      (arith, h, on_listener_events-permits es (on_listener_event l accepted) (ground (arith, h)))
on_listener_events-permits (accept_failed ∷ es) l h = on_listener_events-permits es l h
on_listener_events-permits (shut_down ∷ es) l h =
    ground (arith, h, on_listener_events-permits es (on_listener_event l shut_down) h)
on_listener_events-permits (task_ended ∷ es) l h =
    ground
      (arith, h, on_listener_events-permits es (on_listener_event l task_ended) (ground (arith, h)))
