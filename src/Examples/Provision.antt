-- ===== src/Examples/Provision.antt =====
-- The seed documents at a concrete input.
use kite_kvm.Provision.Yaml.{read_scalar, read_scalar-unescaped, read_scalar-yaml_quote, yaml_quote}
use kite_kvm.Provision.CloudInit.{CloudInit, meta_data, read_mapping, read_mapping-meta_data}
use kite_kvm.Prelude.{[], refl, arith, none, codes, false, some, ◌++◌, ◌∷◌, ◌≡◌}

-- a hostname that tries to end its scalar and to add a key
abbrev hostile : CloudInit
hostile = record {
  instance_id = "i-1";
  hostname = "x\" evil: 1";
  default_user = "";
  password = "";
  ssh_keys = [];
  network = record { mac = ""; static = false; address_cidr = ""; gateway = ""; nameservers = [] };
}

read_scalar-yaml_quote_example :
    read_scalar (yaml_quote (34 ∷ 10 ∷ 27 ∷ []) ++ 10 ∷ []) ≡ some (34 ∷ 10 ∷ 27 ∷ [], 10 ∷ [])
read_scalar-yaml_quote_example =
    read_scalar-yaml_quote (34 ∷ 10 ∷ 27 ∷ []) (10 ∷ []) (refl, (refl, (refl, tt)))

read_mapping-meta_data_example :
    read_mapping 2 (meta_data hostile)
    ≡ some ((codes "instance-id", codes "i-1") ∷ (codes "local-hostname", codes "x\" evil: 1") ∷ [])
read_mapping-meta_data_example = read_mapping-meta_data hostile 0 (ground arith) (ground arith)

-- U+0085 is a line break for a reader of YAML 1.1
unescaped : read_scalar (yaml_quote (133 ∷ []) ++ []) ≡ none
unescaped = read_scalar-unescaped 133 [] (ground arith)
