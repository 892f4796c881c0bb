-- ===== src/Stats/Tests.antt =====
-- One connection of a proxy, from its start to its end.
use tls_tunnel.Prelude.{[], ◌∷◌, arith}
use tls_tunnel.Stats.Tracker.{tracker_new}
use tls_tunnel.Stats.Counting.{
  started, ended, sent, received, count_all, stop, start, end, send, receive, Shows,
  counts_connections,
}

counts_connections_example :
    Shows
      (count_all
        (tracker_new (119 ∷ []) [] 80 8080 7)
        (started ∷ sent 5 ∷ received 9 ∷ started ∷ ended ∷ []))
      1
      2
      5
      9
counts_connections_example =
    counts_connections (119 ∷ []) [] 80 8080 7
      (started ∷ sent 5 ∷ received 9 ∷ started ∷ ended ∷ [])
      (start (send 5 (receive 9 (start (end (stop 1)))))) (omega arith) (omega arith) (omega arith)
