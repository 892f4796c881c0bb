-- ===== src/Forwarder/Talk.antt =====
-- What src/client/forwarder.rs reads from and writes to a local connection. A `Talk` is a piece of an
-- async function: it takes the connection and returns it with a value or an error.
use tls_tunnel.Prelude.{ℕ, zero, suc, Option, none, some, [], ◌∷◌, ◌++◌, Str, Outcome, ok, err}
use tls_tunnel.Visitor.Wire.{read_exact}

pub data TalkError : Type 0 where
  early_end write_failed no_methods bad_domain_length not_utf8 no_method wrong_password : TalkError
  bad_version bad_command bad_address_type : ℕ → TalkError

-- What has arrived before the end or the time limit and is not read yet, what was sent, and how many more
-- writes succeed. What a failing write sends is left out.
pub record Connection : Type 0 where
  pub input : Str
  pub sent : Str
  pub writable : ℕ

abbrev pub Talk {ℓ} : Type ℓ → Type ℓ
Talk A = Connection → Outcome TalkError A × Connection

abbrev pub continue {ℓ κ} :
    {A : Type ℓ} {B : Type κ}
    → (A → Talk B)
    → Outcome TalkError A × Connection
    → Outcome TalkError B × Connection
continue next (ok a, c) = next a c
continue next (err e, c) = (err e, c)

infixl 5 ◌>>=◌ ◌>>◌
abbrev pub ◌>>=◌ {ℓ κ} : {A : Type ℓ} {B : Type κ} → Talk A → (A → Talk B) → Talk B
m >>= next = λ c. continue next (m c)

abbrev pub ◌>>◌ {ℓ} : {B : Type ℓ} → Talk (Unit {0}) → Talk B → Talk B
m >> next = m >>= λ done. next

abbrev pub return {ℓ} : {A : Type ℓ} → A → Talk A
return a c = (ok a, c)

-- `anyhow::bail!`
abbrev pub bail {ℓ} : {A : Type ℓ} → TalkError → Talk A
bail e c = (err e, c)

abbrev pub taken_from : Connection → Option (Str × Str) → Outcome TalkError Str × Connection
taken_from c none = (err early_end, c)
taken_from c (some parts) = (ok parts.0, record c { input = parts.1 })

-- `stream.read_exact(&mut buffer)` with a buffer of that length
unfoldable pub receive : ℕ → Talk Str
receive n c = taken_from c (read_exact n c.input)

abbrev pub sent_over : ℕ → Str → Connection → Outcome TalkError (Unit {0}) × Connection
sent_over zero bytes c = (err write_failed, c)
sent_over (suc left) bytes c = (ok tt, record c { sent = c.sent ++ bytes; writable = left })

-- `stream.write_all(bytes)`
unfoldable pub send : Str → Talk (Unit {0})
send bytes c = sent_over c.writable bytes c

-- A byte of a buffer that is long enough.
abbrev pub nth : ℕ → Str → ℕ
nth i [] = 0
nth zero (b ∷ bytes) = b
nth (suc i) (b ∷ bytes) = nth i bytes
