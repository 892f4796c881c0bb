-- ===== src/Forwarder/SocksAuth.antt =====
-- Whom `handle_socks5_auth` of src/client/forwarder.rs admits. Nothing calls it yet.
use tls_tunnel.Prelude.{
  ℕ, suc, ◌≡◌, ◌↔◌, ◌⊎◌, sym, refl, true, false, some, [], ◌∷◌, ◌++◌, Str, length, contains, nat_eq,
  list_eq, list_beq_iff, beq_refl, arith, Outcome, is_ok, Bool-cases, inl, inr, ap, ◌∙◌,
}
use tls_tunnel.Visitor.Wire.{is_utf8}
use tls_tunnel.Forwarder.Talk.{TalkError, Connection, send, ◌>>◌, ◌>>=◌}
use tls_tunnel.Forwarder.Socks.{
  Socks5Auth, select_method, check_password, verify, authenticate_by, handle_socks5_auth,
}
use tls_tunnel.Forwarder.SocksRequest.{receive-append, send-writable, talking}

-- The greeting of a client, and its credentials.
abbrev pub greeting : Str → Str → Str
greeting methods behind = 5 ∷ length methods ∷ (methods ++ behind)

abbrev pub credentials : Str → Str → Str → Str
credentials username password behind =
    1 ∷ length username ∷ (username ++ (length password ∷ (password ++ behind)))

module _ (auth : Socks5Auth) where
  check_password-credentials :
      (username password rest sent : Str) (w : ℕ)
      → check_password auth (talking (credentials username password rest) sent (suc w))
        ≡ verify auth username password (talking rest sent (suc w))
  unfolding check_password
  check_password-credentials username password rest sent w =
      rw
        (
          receive-append 2 (1 ∷ length username ∷ [])
              (username ++ (length password ∷ (password ++ rest))) sent (suc w) refl,
          receive-append (length username) username (length password ∷ (password ++ rest)) sent
              (suc w) refl,
          receive-append 1 (length password ∷ []) (password ++ rest) sent (suc w) refl,
          receive-append (length password) password rest sent (suc w) refl,
        )
        refl

  verify_iff :
      (username password rest sent : Str) (w : ℕ)
      → is_utf8 auth.username ≡ true
      → is_utf8 auth.password ≡ true
      → (is_ok (verify auth username password (talking rest sent (suc w))).0 ≡ true)
        ↔ ((username ≡ auth.username) × (password ≡ auth.password))
  unfolding verify send
  verify_iff username password rest sent w tu tp = (
    λ h.
        ground (arith, h, list_beq_iff username auth.username, list_beq_iff password auth.password),
    λ e. rw (e.0, e.1, tu, tp, beq_refl auth.username, beq_refl auth.password) refl,
  )

module _ (auth : Socks5Auth) (methods username password rest sent : Str) (w : ℕ) where
  abbrev asked : Connection
  asked = talking (greeting methods (credentials username password rest)) sent (suc (suc w))

  -- The method is chosen from those that the client offers.
  after_greeting :
      handle_socks5_auth (some auth) asked
      ≡ (select_method (some auth) methods >>= λ selected.
            send (5 ∷ selected ∷ []) >> authenticate_by selected (some auth))
          (talking (credentials username password rest) sent (suc (suc w)))
  unfolding handle_socks5_auth select_method check_password verify
  after_greeting =
      let more = credentials username password rest in
      rw
        (
          receive-append 2 (5 ∷ length methods ∷ []) (methods ++ more) sent (suc (suc w)) refl,
          receive-append (length methods) methods more sent (suc (suc w)) refl,
        )
        refl

  offered :
      contains 2 methods ≡ true
      → handle_socks5_auth (some auth) asked
        ≡ verify auth username password (talking rest (sent ++ 5 ∷ 2 ∷ []) (suc w))
  unfolding select_method check_password verify
  offered h =
      after_greeting
      ∙ rw (h, send-writable (5 ∷ 2 ∷ []) (credentials username password rest) sent (suc w))
          (check_password-credentials auth username password rest (sent ++ 5 ∷ 2 ∷ []) w)

  not_offered :
      contains 2 methods ≡ false
      → is_ok (handle_socks5_auth (some auth) asked).0 ≡ contains 0 methods
  unfolding select_method check_password verify send
  not_offered h = rw (after_greeting) (ground (arith, h))

-- Where a password is configured, a client is admitted exactly if it offers the password method and gives the
-- configured name and password, or does not offer that method but to go without: then it is admitted unchecked.
pub handle_socks5_auth_iff :
    (auth : Socks5Auth) (methods username password rest sent : Str) (w : ℕ)
    → is_utf8 auth.username ≡ true
    → is_utf8 auth.password ≡ true
    → (is_ok
          (handle_socks5_auth (some auth) (record {
            input = greeting methods (credentials username password rest);
            sent = sent;
            writable = suc (suc w);
          })).0
        ≡ true)
      ↔ (((contains 2 methods ≡ true) × (username ≡ auth.username) × (password ≡ auth.password))
          ⊎ ((contains 2 methods ≡ false) × (contains 0 methods ≡ true)))
handle_socks5_auth_iff auth methods username password rest sent w tu tp =
    let by_password = verify_iff auth username password rest (sent ++ 5 ∷ 2 ∷ []) w tu tp in
    elim (Bool-cases (contains 2 methods)) [
      | inl has ↦
          let run = offered auth methods username password rest sent w has in
          (
            λ h. inl (
              has,
              (by_password.0 (
                  ap (λ (r : Outcome TalkError (Unit {0}) × Connection). is_ok r.0) (sym run)
                  ∙ h)).0,
              (by_password.0 (
                  ap (λ (r : Outcome TalkError (Unit {0}) × Connection). is_ok r.0) (sym run)
                  ∙ h)).1,
            ),
            λ k. elim k [
              | inl e ↦
                  ap (λ (r : Outcome TalkError (Unit {0}) × Connection). is_ok r.0) run
                  ∙ by_password.1 (e.1, e.2)
              | inr e ↦ absurd (cc (has, e.0))
            ],
          )
      | inr lacks ↦
          let run = not_offered auth methods username password rest sent w lacks in
          (
            λ h. inr (lacks, sym run ∙ h),
            λ k. elim k [ inl e ↦ absurd (cc (lacks, e.0)) | inr e ↦ run ∙ e.1 ],
          )
    ]
