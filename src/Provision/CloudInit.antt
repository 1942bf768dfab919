-- ===== src/Provision/CloudInit.antt =====
-- The documents of the seed image: internal/provision/cloudinit.go. Texts are lists of runes.
use kite_kvm.Prelude.{
  Bool, List, Option, String, [], arith, codes, false, if◌then◌else◌, none, not, refl, some, str_eq,
  true, ℕ, ◌++◌, ◌==◌, ◌∷◌, ◌≡◌, All, leb, suc, zero, ◌&&◌, ◌||◌, ◌∙◌,
}
use kite_kvm.Libvirt.{SeedFile}
use kite_kvm.Provision.Yaml.{read_scalar, yaml_quote, read_scalar-yaml_quote, is_beyond}

pub record NetworkConfig : Type 0 where
  pub mac : String
  pub static : Bool
  pub address_cidr : String
  pub gateway : String
  pub nameservers : List String

pub record CloudInit : Type 0 where
  pub instance_id : String
  pub hostname : String
  pub default_user : String
  pub password : String
  pub ssh_keys : List String
  pub network : NetworkConfig

abbrev quoted : String → List ℕ
quoted s = yaml_quote (codes s)

-- a line break
abbrev nl : List ℕ
nl = 10 ∷ []

-- what is written to a strings.Builder, one piece after another
unfoldable pub written : List (List ℕ) → List ℕ
written [] = []
written (piece ∷ pieces) = piece ++ written pieces

unfoldable pub meta_data : CloudInit → List ℕ
unfolding written
meta_data ci = written (
    codes "instance-id: "
    ∷ quoted ci.instance_id
    ∷ nl
    ∷ codes "local-hostname: "
    ∷ quoted ci.hostname
    ∷ nl
    ∷ [])

-- for _, k := range ci.SSHKeys
unfoldable pub key_lines : List String → List ℕ
key_lines [] = []
key_lines (k ∷ ks) = codes "      - " ++ (quoted k ++ (nl ++ key_lines ks))

abbrev when : Bool → List (List ℕ) → List ℕ
unfolding written
when b pieces = if b then written pieces else []

abbrev is_empty : {A : Type 0} → List A → Bool
is_empty [] = true
is_empty (x ∷ xs) = false

unfoldable pub user_data : CloudInit → List ℕ
unfolding written
user_data ci =
    let user = if str_eq ci.default_user "" then "root" else ci.default_user in
    let is_root = str_eq user "root" in
    let has_password = not (str_eq ci.password "") in
    written (
      codes "#cloud-config"
      ∷ nl
      ∷ codes "hostname: "
      ∷ quoted ci.hostname
      ∷ nl
      ∷ codes "fqdn: "
      ∷ quoted ci.hostname
      ∷ nl
      ∷ codes "manage_etc_hosts: true"
      ∷ nl
      ∷ codes "preserve_hostname: false"
      ∷ nl
      ∷ codes (if has_password then "ssh_pwauth: true" else "ssh_pwauth: false")
      ∷ nl
      ∷ codes "disable_root: false"
      ∷ nl
      ∷ codes "ssh_deletekeys: false"
      ∷ nl
      ∷ codes "users:"
      ∷ nl
      ∷ codes "  - name: "
      ∷ codes user
      ∷ nl
      ∷ when (not is_root) (
          codes "    sudo: \"ALL=(ALL) NOPASSWD:ALL\""
          ∷ nl
          ∷ codes "    groups: [sudo]"
          ∷ nl
          ∷ codes "    shell: /bin/bash"
          ∷ nl
          ∷ [])
      ∷ codes "    lock_passwd: false"
      ∷ nl
      ∷ when (not (is_empty ci.ssh_keys))
          (codes "    ssh_authorized_keys:" ∷ nl ∷ key_lines ci.ssh_keys ∷ [])
      ∷ when has_password (
          codes "chpasswd:"
          ∷ nl
          ∷ codes "  expire: false"
          ∷ nl
          ∷ codes "  users:"
          ∷ nl
          ∷ codes "    - {name: root, password: "
          ∷ quoted ci.password
          ∷ codes ", type: text}"
          ∷ nl
          ∷ when (not is_root) (
              codes "    - {name: "
              ∷ codes user
              ∷ codes ", password: "
              ∷ quoted ci.password
              ∷ codes ", type: text}"
              ∷ nl
              ∷ [])
          ∷ [])
      ∷ [])

-- strings.Join(quoteAll(ss), ", ")
unfoldable pub join_quoted : List String → List ℕ
join_quoted [] = []
join_quoted (s ∷ []) = quoted s
join_quoted (s ∷ t ∷ ss) = quoted s ++ (codes ", " ++ join_quoted (t ∷ ss))

unfoldable pub render_network : NetworkConfig → List ℕ
unfolding written
render_network nc =
    let static_lines = written (
      codes "    addresses:"
      ∷ nl
      ∷ codes "      - "
      ∷ quoted nc.address_cidr
      ∷ nl
      ∷ when (not (str_eq nc.gateway "")) (
          codes "    routes:"
          ∷ nl
          ∷ codes "      - to: default"
          ∷ nl
          ∷ codes "        via: "
          ∷ quoted nc.gateway
          ∷ nl
          ∷ [])
      ∷ when (not (is_empty nc.nameservers)) (
          codes "    nameservers:"
          ∷ nl
          ∷ codes "      addresses: ["
          ∷ join_quoted nc.nameservers
          ∷ codes "]"
          ∷ nl
          ∷ [])
      ∷ []) in
    written (
      codes "version: 2"
      ∷ nl
      ∷ codes "ethernets:"
      ∷ nl
      ∷ codes "  nic0:"
      ∷ nl
      ∷ when (not (str_eq nc.mac "")) (
          codes "    match:"
          ∷ nl
          ∷ codes "      macaddress: "
          ∷ quoted nc.mac
          ∷ nl
          ∷ codes "    set-name: eth0"
          ∷ nl
          ∷ [])
      ∷ (if nc.static then static_lines else written (codes "    dhcp4: true" ∷ nl ∷ []))
      ∷ [])

-- Files
unfoldable pub files : CloudInit → List SeedFile
files ci =
    record { name = "meta-data"; content = meta_data ci }
    ∷ record { name = "user-data"; content = user_data ci }
    ∷ record { name = "network-config"; content = render_network ci.network }
    ∷ []

-- A reader of flat YAML mappings with any number of entries: a key of letters and dashes, a colon
-- and a space, a double-quoted scalar, and the end of the line. The fuel bounds the entries.
strip : List ℕ → List ℕ → Option (List ℕ)
strip [] s = some s
strip (p ∷ ps) [] = none
strip (p ∷ ps) (c ∷ s) = if p == c then strip ps s else none

abbrev bind : {A B : Type 0} → Option A → (A → Option B) → Option B
bind none f = none
bind (some a) f = f a

-- a-z, A-Z and `-`
abbrev is_key_char : ℕ → Bool
is_key_char c = (leb 97 c && leb c 122) || (leb 65 c && leb c 90) || c == 45

read_key : List ℕ → Option (List ℕ × List ℕ)
unfolding strip
read_key [] = none
read_key (c ∷ s) =
    let rest = read_key s in
    if c == 58
    then bind (strip (32 ∷ []) s) (λ value. some ([], value))
    else if is_key_char c
    then bind rest (λ (key, value). some (c ∷ key, value))
    else none

read_entry : List ℕ → Option ((List ℕ × List ℕ) × List ℕ)
unfolding strip read_key
read_entry s = bind (read_key s) λ (key, value).
    bind (read_scalar value) λ (text, rest). bind (strip nl rest) λ after. some ((key, text), after)

pub read_mapping : ℕ → List ℕ → Option (List (List ℕ × List ℕ))
read_mapping fuel [] = some []
read_mapping zero (c ∷ s) = none
read_mapping (suc fuel) (c ∷ s) =
    bind (read_entry (c ∷ s))
      λ (entry, after). bind (read_mapping fuel after) λ entries. some (entry ∷ entries)

-- a key, as it is written before its value
abbrev IsKey : List ℕ → Type 0
IsKey = All (λ c. (is_key_char c ≡ true) × ((c == 58) ≡ false))

read_key_lem :
    (key value : List ℕ) → IsKey key → read_key (key ++ 58 ∷ 32 ∷ value) ≡ some (key, value)
unfolding read_key strip
read_key_lem [] value h = refl
read_key_lem (c ∷ key) value h = rw (h.0.1, h.0.0, read_key_lem key value h.1) refl

read_entry_lem :
    (key text after : List ℕ)
    → IsKey key
    → All (λ r. is_beyond r ≡ false) text
    → read_entry (key ++ 58 ∷ 32 ∷ (yaml_quote text ++ (nl ++ after))) ≡ some ((key, text), after)
unfolding read_entry strip
read_entry_lem key text after k inside =
    rw (read_key_lem key (yaml_quote text ++ (nl ++ after)) k)
      (rw (read_scalar-yaml_quote text (nl ++ after) inside))

read_mapping_lem :
    (fuel c : ℕ) (key text after : List ℕ)
    → IsKey (c ∷ key)
    → All (λ r. is_beyond r ≡ false) text
    → read_mapping (suc fuel) (c ∷ (key ++ 58 ∷ 32 ∷ (yaml_quote text ++ (nl ++ after))))
      ≡ bind (read_mapping fuel after) λ entries. some ((c ∷ key, text) ∷ entries)
unfolding read_mapping
read_mapping_lem fuel c key text after k inside =
    rw (read_entry_lem (c ∷ key) text after k inside) refl

last_line :
    (fuel : ℕ) (name : String)
    → All (λ r. is_beyond r ≡ false) (codes name)
    → read_mapping (suc fuel) (codes "local-hostname: " ++ (quoted name ++ (nl ++ [])))
      ≡ some ((codes "local-hostname", codes name) ∷ [])
unfolding read_mapping
last_line fuel name inside =
    read_mapping_lem fuel 108 (codes "ocal-hostname") (codes name) [] (ground arith) inside

-- For an instance id and a hostname without the characters that a YAML reader refuses and that are
-- not escaped, whatever else they hold: a reader of flat mappings, with fuel for two entries or
-- more, finds in the meta-data document the instance id under `instance-id`, then the hostname under
-- `local-hostname`, and nothing else.
pub read_mapping-meta_data :
    (ci : CloudInit) (fuel : ℕ)
    → All (λ r. is_beyond r ≡ false) (codes ci.instance_id)
    → All (λ r. is_beyond r ≡ false) (codes ci.hostname)
    → read_mapping (suc (suc fuel)) (meta_data ci)
      ≡ some (
          (codes "instance-id", codes ci.instance_id)
          ∷ (codes "local-hostname", codes ci.hostname)
          ∷ [])
unfolding meta_data
read_mapping-meta_data ci fuel i k =
    read_mapping_lem (suc fuel) 105 (codes "nstance-id") (codes ci.instance_id)
      (codes "local-hostname: " ++ (quoted ci.hostname ++ (nl ++ []))) (ground arith) i
    ∙ rw (last_line fuel ci.hostname k) refl
