-- ===== src/Api/Access.antt =====
-- internal/api/middleware.go: who may call the API. Of package net, an address and a network are
-- types of a parameter, with ParseIP, ParseCIDR, Contains, Equal and SplitHostPort.
use kite_kvm.Network.Pool.{has_slash}
use Prim.Native.Char.{code}
use kite_kvm.Prelude.{
  String, Bool, List, Option, [], false, if◌then◌else◌, leb, none, some, str_eq, true, ℕ, ◌&&◌, ◌+◌,
  ◌==◌, ◌||◌, ◌∷◌,
}

pub record AddressLib (Ip Net : Type 0) : Type 0 where
  pub parse_ip : String → Option Ip
  pub parse_cidr : String → Option Net
  pub contains_ip : Net → Ip → Bool
  pub same_ip : Ip → Ip → Bool
  pub split_host_port : String → Option String  -- the host
  pub trim_space : String → String

-- a letter of ASCII as a small one
abbrev pub small_letter : ℕ → ℕ
small_letter c = if leb b'A' c && leb c b'Z' then c + 32 else c

-- The text behind a prefix, whose letters may be small or capital: strings.EqualFold on the first
-- bytes. No other rune folds to a letter of "Bearer ".
unfoldable pub after_prefix : String → String → Option String
after_prefix String.[] h = some h
after_prefix (String.◌∷◌ p ps) String.[] = none
after_prefix (String.◌∷◌ p ps) (String.◌∷◌ c s) =
    let rest = after_prefix ps s in
    if small_letter (code p) == small_letter (code c) then rest else none

-- bearerToken, of the header Authorization
unfoldable pub bearer_token : (String → String) → String → Option String
bearer_token trim_space header = elim (after_prefix "Bearer " header) [
  | none ↦ none
  | some rest ↦ if str_eq rest "" then none else some (trim_space rest)
]

-- tokenAllowed: every token is compared, and the results are joined by `|`
unfoldable pub token_allowed : List String → String → Bool
token_allowed [] provided = false
token_allowed (t ∷ tokens) provided = str_eq t provided || token_allowed tokens provided

module _ {Ip Net : Type 0} (net : AddressLib Ip Net) where
  abbrev pub cons_some : {A : Type 0} → Option A → List A → List A
  cons_some none rest = rest
  cons_some (some a) rest = a ∷ rest

  -- parseAllowlist; an entry that is not parsed is left out
  unfoldable pub parse_allowlist : List String → List Net × List Ip
  parse_allowlist [] = ([], [])
  parse_allowlist (e ∷ entries) =
      let rest = parse_allowlist entries in
      if has_slash e
      then (cons_some (net.parse_cidr e) rest.0, rest.1)
      else (rest.0, cons_some (net.parse_ip e) rest.1)

  unfoldable pub in_networks : Ip → List Net → Bool
  in_networks ip [] = false
  in_networks ip (n ∷ nets) = net.contains_ip n ip || in_networks ip nets

  unfoldable pub in_addresses : Ip → List Ip → Bool
  in_addresses ip [] = false
  in_addresses ip (a ∷ ips) = net.same_ip a ip || in_addresses ip ips

  -- ipMatches
  unfoldable pub ip_matches : Ip → List Net → List Ip → Bool
  ip_matches ip nets ips = in_networks ip nets || in_addresses ip ips

  -- clientIP
  unfoldable pub client_ip : String → Option Ip
  client_ip remote_addr = elim (net.split_host_port remote_addr) [
    | none ↦ net.parse_ip remote_addr
    | some host ↦ net.parse_ip host
  ]

  -- the test of ipAllowlist
  unfoldable pub source_allowed : List String → String → Bool
  source_allowed [] remote_addr = true
  source_allowed (e ∷ entries) remote_addr =
      let parsed = parse_allowlist (e ∷ entries) in
      elim (client_ip remote_addr) [ none ↦ false | some ip ↦ ip_matches ip parsed.0 parsed.1 ]

  -- the test of bearerAuth
  unfoldable pub token_valid : List String → String → Bool
  token_valid tokens header = elim (bearer_token net.trim_space header) [
    | none ↦ false
    | some token ↦ token_allowed tokens token
  ]
