-- ===== src/Examples/Endpoints.antt =====
-- Requests to the API of the agent of Examples.Agent. Addresses are texts, and a body is decoded as
-- the same request whatever it holds.
use kite_kvm.Api.Router.Guard.{IsAdmitted, IsBearer, serve-guards}
use kite_kvm.Api.Router.{ApiEnv, HttpRequest, create_vm_route, serve, keyed_route}
use kite_kvm.Api.Exchange.{Codec, Draw, Site, no_value, value}
use kite_kvm.Examples.Agent.{drawn, queue, renv, wanted}
use kite_kvm.Prelude.{pos, String, [], false, none, ok, refl, some, str_eq, true, ◌∷◌, ◌≡◌, ◌⊎◌}

abbrev codec : Codec
codec = record {
  create = λ body. value wanted;
  password = λ body. no_value;
  hostname = λ body. no_value;
  rebuild = λ body. no_value;
  flavor = λ body. no_value;
  snapshot = λ body. no_value;
  quota = λ body. value (pos 5);
  atoi = λ s. none;
}

abbrev draw : Draw
draw = record { drawn = drawn; snapshot = "0a1b2c3d"; token = ok "t"; later = 1001 }

abbrev api : ApiEnv (Unit {0}) String String
api = record {
  renv = renv;
  auth = record { tokens = "secret" ∷ []; ip_allowlist = "10.0.0.1" ∷ [] };
  net = record {
    parse_ip = λ s. some s;
    parse_cidr = λ s. some s;
    contains_ip = λ n ip. false;
    same_ip = λ a b. str_eq a b;
    split_host_port = λ s. some s;
    trim_space = λ s. s;
  };
  codec = codec;
  encode = λ reply. 123 ∷ 125 ∷ [];
  sha256_hex = λ bytes. "digest";
  dials = λ ticket. true;
}

abbrev post : HttpRequest
post = record {
  base = record { key = "k1"; method = "POST"; path = "/v1/vms"; body = ok (123 ∷ 125 ∷ []) };
  authorization = "bearer secret";
  remote_addr = "10.0.0.1";
  query = λ name. "";
}

abbrev site : Site (Unit {0})
site = record {
  queue = queue;
  tokens = record { ttl = 60; tickets = λ token. none };
  last_stats = λ name. none;
}

serve-guards_example :
    let out = serve api draw (keyed_route create_vm_route) post site in
    ((out.0.status ≡ 403) × (out.1 ≡ site))
    ⊎ ((out.0.status ≡ 401) × (out.1 ≡ site))
    ⊎ (IsAdmitted api.net api.auth.ip_allowlist post.remote_addr
        × IsBearer api.net api.auth.tokens post.authorization)
serve-guards_example = serve-guards api draw (keyed_route create_vm_route) post site refl

-- the agent a second later
abbrev later : Site (Unit {0})
later = (serve api draw (keyed_route create_vm_route) post site).1
