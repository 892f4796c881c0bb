-- ===== src/Visitor/Tests.antt =====
-- Visitor and forward requests of src/client/visitor.rs and src/server/visitor.rs on small inputs.
use tls_tunnel.Prelude.{
  ◌≡◌, ◌↔◌, ◌≤◌, refl, true, false, none, some, [], ◌∷◌, ◌++◌, ◌+◌, ◌*◌, codes, arith, lookup,
  nat_eq, list_eq, pair_eq, ok, err,
}
use tls_tunnel.Config.Types.{tcp, VisitorConfig, tls, ServerConfig}
use tls_tunnel.Server.World.{ProxyRegistration}
use tls_tunnel.Visitor.Wire.{read_u16, utf8_from, next}
use tls_tunnel.Visitor.Address.{v4, v6, Resolver}
use tls_tunnel.Visitor.Handler.{
  not_found, not_found_text, denied, opens, Environment, handle_visitor_stream,
}
use tls_tunnel.Visitor.Client.{
  visitor_request, forward_request, accepted, rejected, read_confirmation,
}
use tls_tunnel.Visitor.Transfer.{IsName, visitor-accepted, visitor-rejected}
use tls_tunnel.Visitor.Forwarding.{DialsCleared, handle_visitor_stream-DialsCleared}

abbrev server : ServerConfig
server = record {
  bind_addr = codes "0.0.0.0";
  bind_port = 443;
  transport = tls;
  behind_proxy = false;
  cert_path = none;
  key_path = none;
  auth_key = codes "key";
  stats_port = none;
  stats_addr = none;
  allow_forward = true;
  rate_limit = none;
  size_limits = none;
}

abbrev web : ProxyRegistration
web = record {
  stream_tx = 3;
  proxy_info = record {
    name = codes "web";
    proxy_type = tcp;
    publish_addr = codes "0.0.0.0";
    publish_port = 8080;
    local_port = 80;
  };
}

-- Every name is that of one public address.
abbrev public : Resolver
public s = some (v4 93 184 216 34 ∷ [])

abbrev mapped : Resolver
mapped s = some (v6 0 0 0 0 0 0xFFFF (127 * 256 + 0) (0 * 256 + 1) ∷ [])

abbrev env : Environment
env = record {
  registry = ((codes "web", 8080), web) ∷ [];
  config = server;
  resolve = public;
  connect = λ target. ok tt;
  confirms = true;
  owner = λ channel. opens 2 true;
}

abbrev far_web : VisitorConfig
far_web = record {
  name = codes "web";
  proxy_type = tcp;
  bind_addr = codes "127.0.0.1";
  bind_port = 9000;
  publish_port = 8080;
}

abbrev far_ssh : VisitorConfig
far_ssh = record far_web { name = codes "ssh"; publish_port = 2222 }

web-IsName : IsName (codes "web")
unfolding utf8_from next
web-IsName = record { nonempty = omega arith; short = omega arith; text = refl }

ssh-IsName : IsName (codes "ssh")
unfolding utf8_from next
ssh-IsName = record { nonempty = omega arith; short = omega arith; text = refl }

visitor-accepted_example :
    let o = handle_visitor_stream env (visitor_request far_web ++ []) in
    (read_confirmation o.written ≡ accepted)
    × (o.asked ≡ some (3, 80, codes "web"))
    × ((read_u16 o.to_owner ≡ some (8080, [])) ↔ (2 ≤ 2))
    × ((o.outcome ≡ ok tt) ↔ ((2 ≤ 2) × (true ≡ true)))
unfolding lookup
visitor-accepted_example =
    visitor-accepted env far_web [] web-IsName (omega arith) refl web 2 true refl refl refl

visitor-rejected_example :
    let o = handle_visitor_stream env (visitor_request far_ssh ++ []) in
    (read_confirmation o.written ≡ rejected (not_found_text (codes "ssh") 2222))
    × (o.asked ≡ none)
    × (o.outcome ≡ err (not_found (codes "ssh") 2222))
unfolding lookup
visitor-rejected_example = visitor-rejected env far_ssh [] ssh-IsName (omega arith) refl refl

handle_visitor_stream-DialsCleared_example :
    DialsCleared env (handle_visitor_stream env (forward_request (codes "example.com:80")))
handle_visitor_stream-DialsCleared_example =
    handle_visitor_stream-DialsCleared env (forward_request (codes "example.com:80"))

dials_public :
    (handle_visitor_stream env (forward_request (codes "example.com:80"))).dialled
    ≡ some (codes "example.com:80")
unfolding handle_visitor_stream forward_request utf8_from next
dials_public = refl

denies_private :
    (handle_visitor_stream
      (record env { resolve = λ s. some (v4 192 168 1 1 ∷ []) })
      (forward_request (codes "router:80"))).outcome
    ≡ err (denied (codes "router:80"))
unfolding handle_visitor_stream forward_request utf8_from next
denies_private = refl
