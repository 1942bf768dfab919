-- ===== src/Api/Router/Guard.antt =====
-- The middleware of internal/api/middleware.go before the routes of /v1.

use kite_kvm.Vm.Requests.Create.{found}
use kite_kvm.Api.Router.{ApiEnv, HttpRequest, Route, is_v1, serve}
use kite_kvm.Api.Exchange.{Draw, Site, error_response}
use kite_kvm.Api.Access.{
  AddressLib, bearer_token, client_ip, in_addresses, in_networks, ip_matches, parse_allowlist,
  source_allowed, token_allowed, token_valid,
}
use kite_kvm.Network.Pool.{has_slash}
use kite_kvm.Prelude.{
  String, Bool, Bool-cases, List, Option-cases, [], arith, contains, false, if◌then◌else◌, inl, inr,
  none, refl, some, true, ◌||◌, ◌∷◌, ◌≡◌, ◌⊎◌,
}

module _ {Ip Net : Type 0} (net : AddressLib Ip Net) where
  -- what one entry of the allowlist admits, read by itself
  abbrev pub covers : Ip → String → Bool
  covers ip e =
      if has_slash e
      then elim (net.parse_cidr e) [ none ↦ false | some n ↦ net.contains_ip n ip ]
      else elim (net.parse_ip e) [ none ↦ false | some a ↦ net.same_ip a ip ]

  unfoldable pub some_entry : Ip → List String → Bool
  some_entry ip [] = false
  some_entry ip (e ∷ entries) = covers ip e || some_entry ip entries

  ip_matches-some_entry :
      (ip : Ip) (entries : List String)
      → ip_matches net ip (parse_allowlist net entries).0 (parse_allowlist net entries).1
        ≡ some_entry ip entries
  unfolding ip_matches in_networks in_addresses parse_allowlist some_entry
  ip_matches-some_entry ip [] = refl
  ip_matches-some_entry ip (e ∷ entries) = ground (arith, ip_matches-some_entry ip entries)

  -- the peer of a connection is let through: there is no allowlist, or an entry covers its address
  abbrev pub IsAdmitted : List String → String → Type 0
  IsAdmitted entries remote_addr =
      (entries ≡ [])
      ⊎ ((ip : Ip) × (client_ip net remote_addr ≡ some ip) × (some_entry ip entries ≡ true))

  source_allowed-IsAdmitted :
      (entries : List String) (remote_addr : String)
      → source_allowed net entries remote_addr ≡ true
      → IsAdmitted entries remote_addr
  unfolding source_allowed
  source_allowed-IsAdmitted [] remote_addr h = inl refl
  source_allowed-IsAdmitted (e ∷ entries) remote_addr h =
      elim (Option-cases (client_ip net remote_addr)) [
        | inl none_found ↦ ground (arith, h, none_found)
        | inr (ip, found) ↦
            inr (ip, found, ground (arith, h, found, ip_matches-some_entry ip (e ∷ entries)))
      ]

  -- the header carries a configured token
  abbrev pub IsBearer : List String → String → Type 0
  IsBearer tokens header =
      (token : String) × (bearer_token net.trim_space header ≡ some token)
      × (contains token tokens ≡ true)

  token_allowed-contains :
      (tokens : List String) (token : String) → token_allowed tokens token ≡ contains token tokens
  unfolding token_allowed contains
  token_allowed-contains [] token = refl
  token_allowed-contains (t ∷ tokens) token = ground (arith, token_allowed-contains tokens token)

  token_valid-IsBearer :
      (tokens : List String) (header : String)
      → token_valid net tokens header ≡ true
      → IsBearer tokens header
  unfolding token_valid
  token_valid-IsBearer tokens header h = elim (Option-cases (bearer_token net.trim_space header)) [
    | inl none_found ↦ ground (arith, h, none_found)
    | inr (token, found) ↦
        (token, found, ground (arith, h, found, token_allowed-contains tokens token))
  ]

module _ {H Ip Net : Type 0} (api : ApiEnv H Ip Net) (draw : Draw) where
  -- A request to a route of /v1 is answered 403 or 401 and changes nothing, or it comes from an
  -- address that an entry of the allowlist covers, or there is no allowlist, and its header carries
  -- one of the configured tokens.
  pub serve-guards :
      (route : Route) (req : HttpRequest) (s : Site H)
      → is_v1 route ≡ true
      → (((serve api draw route req s).0.status ≡ 403) × ((serve api draw route req s).1 ≡ s))
        ⊎ (((serve api draw route req s).0.status ≡ 401) × ((serve api draw route req s).1 ≡ s))
        ⊎ (IsAdmitted api.net api.auth.ip_allowlist req.remote_addr
            × IsBearer api.net api.auth.tokens req.authorization)
  unfolding serve error_response
  serve-guards route req s gated =
      elim (Bool-cases (source_allowed api.net api.auth.ip_allowlist req.remote_addr)) [
        | inr denied ↦ inl (ground (arith, gated, denied), ground (arith, gated, denied))
        | inl admitted ↦ elim (Bool-cases (token_valid api.net api.auth.tokens req.authorization)) [
          | inr denied ↦ inr (
              inl
                (ground (arith, gated, admitted, denied), ground (arith, gated, admitted, denied)))
          | inl known ↦ inr (
              inr (
                source_allowed-IsAdmitted api.net api.auth.ip_allowlist req.remote_addr admitted,
                token_valid-IsBearer api.net api.auth.tokens req.authorization known,
              ))
        ]
      ]
