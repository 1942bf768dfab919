-- ===== src/Vm/Requests/Validation.antt =====
-- internal/vm/validate.go: what a request may say. A text's length is that of its bytes in UTF-8.
use kite_kvm.Network.Strategy.{is_host_char}
use kite_kvm.Prelude.{
  String, Bool, List, Result, [], codes, err, false, if◌then◌else◌, invalid_request, ltb, not, ok,
  str_eq, true, ℕ, ◌&&◌, ◌+◌, ◌==◌, ◌||◌, ◌∷◌,
}

-- the bytes of a rune in UTF-8
abbrev pub utf8_width : ℕ → ℕ
utf8_width c = if ltb c 128 then 1 else if ltb c 2048 then 2 else if ltb c 65536 then 3 else 4

-- len(s)
unfoldable pub byte_length : List ℕ → ℕ
byte_length [] = 0
byte_length (c ∷ cs) = utf8_width c + byte_length cs

abbrev pub dot : ℕ
dot = b'.'

abbrev pub hyphen : ℕ
hyphen = b'-'

-- [a-zA-Z0-9]
abbrev pub is_alphanumeric : ℕ → Bool
is_alphanumeric c = is_host_char c && not (c == hyphen)

-- The automaton of hostnameRE: how long the label is so far, and whether it ends in a hyphen.
unfoldable pub host_labels : ℕ → Bool → List ℕ → Bool
host_labels size hyphened [] = ltb 0 size && not hyphened
host_labels size hyphened (c ∷ cs) =
    let next_label = host_labels 0 false cs in
    let in_label = host_labels (size + 1) false cs in
    let after_hyphen = host_labels (size + 1) true cs in
    if c == dot
    then ltb 0 size && not hyphened && next_label
    else if is_alphanumeric c
    then ltb size 63 && in_label
    else c == hyphen && ltb 0 size && ltb size 63 && after_hyphen

-- validateHostname
unfoldable pub validate_hostname : String → Result (Unit {0})
validate_hostname h =
    let size = byte_length (codes h) in
    if size == 0 || ltb 253 size || not (host_labels 0 false (codes h))
    then err invalid_request
    else ok tt

abbrev pub is_control : ℕ → Bool
is_control c = ltb c 32 || c == 127

-- for _, r := range p { … }
unfoldable pub has_control : List ℕ → Bool
has_control [] = false
has_control (c ∷ cs) = is_control c || has_control cs

-- validatePassword
unfoldable pub validate_password : String → Result (Unit {0})
validate_password p =
    if str_eq p ""
    then ok tt
    else if ltb 256 (byte_length (codes p)) || has_control (codes p)
    then err invalid_request
    else ok tt

-- strings.ContainsAny(k, "\n\r")
unfoldable pub has_line_break : List ℕ → Bool
has_line_break [] = false
has_line_break (c ∷ cs) = c == b'\n' || c == b'\r' || has_line_break cs

-- validateSSHKeys; `parses` tells whether ssh.ParseAuthorizedKey succeeds
unfoldable pub validate_ssh_keys :
    (String → String) → (String → Bool) → List String → Result (Unit {0})
validate_ssh_keys trim_space parses [] = ok tt
validate_ssh_keys trim_space parses (k ∷ keys) =
    let rest = validate_ssh_keys trim_space parses keys in
    let key = trim_space k in
    if str_eq key "" || has_line_break (codes key) || not (parses key)
    then err invalid_request
    else rest
