-- ===== src/ClientSession/Deadline.antt =====
-- A request of src/client/control_channel.rs that the server does not answer in time.
use tls_tunnel.Prelude.{
  ℕ, ◌≡◌, ◌≢◌, refl, ap, ◌∙◌, Bool, true, false, Option, none, some, List, [], ◌∷◌, ◌++◌, arith,
  nat_eq, lookup, remove, lookup-remove, Table, All, Option-cases, inl, inr,
}
use tls_tunnel.ClientSession.Channel.{
  ControlEvent, Waiter, ClientControlChannel, raise, Json, JsonRpcResponse, on_response, answer,
  id_of, handle_response, timeout_event, time_out, send_heartbeat,
}

-- What happens to a channel while its requests wait.
pub data Happening (Value : Type 0) : Type 0 where
  responds : JsonRpcResponse Value → Happening Value
  expires : ℕ → Happening Value
  beats : Bool → Happening Value

module _ {Value : Type 0} (json : Json Value) where
  unfoldable pub happen : ClientControlChannel → Happening Value → ClientControlChannel
  happen c (responds r) = handle_response json c r
  happen c (expires id) = time_out c id
  happen c (beats written) = send_heartbeat json written c

  unfoldable pub happen_all : ClientControlChannel → List (Happening Value) → ClientControlChannel
  unfolding happen
  happen_all c [] = c
  happen_all c (h ∷ hs) = happen_all (happen c h) hs

  -- It is neither a response to this request nor the end of its time.
  abbrev pub Concerns : ℕ → Happening Value → Type 0
  Concerns id (responds r) = (n : Option ℕ) × (json.as_number r.id ≡ some n) × (id_of n ≡ id)
  Concerns id (expires other) = other ≡ id
  Concerns id (beats written) = ⊥

  raise-pending :
      (o : Option ControlEvent) (c : ClientControlChannel)
      → (raise o c).pending_requests ≡ c.pending_requests
  raise-pending none c = refl
  raise-pending (some e) c = refl

  removed :
      (id other : ℕ) (w : Waiter) (m : Table ℕ Waiter)
      → other ≢ id
      → lookup id m ≡ some w
      → lookup id (remove other m) ≡ some w
  removed id other w m ne h = ground (arith, lookup-remove other id m, h, ne)

  answer-waits :
      (id other : ℕ) (w : Waiter) (c : ClientControlChannel) (r : JsonRpcResponse Value)
      → other ≢ id
      → lookup id c.pending_requests ≡ some w
      → lookup id (answer json c other r).pending_requests ≡ some w
  unfolding answer
  answer-waits id other w c r ne h = elim (Option-cases (lookup other c.pending_requests)) [
    | inl unknown ↦ rw (unknown, answer) h
    | inr (v, found) ↦
        rw (found, answer)
          (ap (lookup id) (
              raise-pending (on_response json v r)
                (record c { pending_requests = remove other c.pending_requests }))
            ∙ removed id other w c.pending_requests ne h)
  ]

  time_out-waits :
      (id other : ℕ) (w : Waiter) (c : ClientControlChannel)
      → other ≢ id
      → lookup id c.pending_requests ≡ some w
      → lookup id (time_out c other).pending_requests ≡ some w
  unfolding time_out
  time_out-waits id other w c ne h = elim (Option-cases (lookup other c.pending_requests)) [
    | inl unknown ↦ rw (unknown, time_out) h
    | inr (v, found) ↦ rw (found, time_out) (removed id other w c.pending_requests ne h)
  ]

  happen-waits :
      (id : ℕ) (w : Waiter) (c : ClientControlChannel) (h : Happening Value)
      → ¬ Concerns id h
      → lookup id c.pending_requests ≡ some w
      → lookup id (happen c h).pending_requests ≡ some w
  unfolding happen handle_response send_heartbeat
  happen-waits id w c (responds r) ne h = elim (Option-cases (json.as_number r.id)) [
    | inl other ↦ rw (other, handle_response) h
    | inr (n, is) ↦
        rw (is, handle_response) (answer-waits id (id_of n) w c r (λ e. ne (n, is, e)) h)
  ]
  happen-waits id w c (expires other) ne h = time_out-waits id other w c ne h
  happen-waits id w c (beats true) ne h = h
  happen-waits id w c (beats false) ne h = h

  happen_all-waits :
      (hs : List (Happening Value)) (id : ℕ) (w : Waiter) (c : ClientControlChannel)
      → All (λ h. ¬ Concerns id h) hs
      → lookup id c.pending_requests ≡ some w
      → lookup id (happen_all c hs).pending_requests ≡ some w
  unfolding happen_all
  happen_all-waits [] id w c ne h = h
  happen_all-waits (x ∷ hs) id w c ne h =
      happen_all-waits hs id w (happen c x) ne.1 (happen-waits id w c x ne.0 h)

  expired :
      (id : ℕ) (w : Waiter) (c : ClientControlChannel) (late : JsonRpcResponse Value)
      → lookup id c.pending_requests ≡ some w
      → ((time_out c id).events ≡ c.events ++ timeout_event w ∷ [])
        × (answer json (time_out c id) id late ≡ time_out c id)
  unfolding time_out answer
  expired id w c late h =
      let gone : lookup id (remove id c.pending_requests) ≡ none =
        ground (arith, lookup-remove id id c.pending_requests) in
      rw (h, time_out) (refl, rw (gone, answer) refl)

  -- A request that waits, and to which no response has come when its ten seconds are over, whatever else has
  -- happened, raises its failure then; and a response that comes later changes nothing.
  pub time_out-raises :
      (hs : List (Happening Value)) (id : ℕ) (w : Waiter) (c : ClientControlChannel)
      (late : JsonRpcResponse Value)
      → lookup id c.pending_requests ≡ some w
      → All (λ h. ¬ Concerns id h) hs
      → ((time_out (happen_all c hs) id).events ≡ (happen_all c hs).events ++ timeout_event w ∷ [])
        × (answer json (time_out (happen_all c hs) id) id late ≡ time_out (happen_all c hs) id)
  time_out-raises hs id w c late h ne =
      expired id w (happen_all c hs) late (happen_all-waits hs id w c ne h)
