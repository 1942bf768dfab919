-- ===== src/Config/Lookups.antt =====
-- The networks of an accepted configuration: Validate against the tables that NewManager of
-- internal/network/network.go and NetworkByID and DefaultNetwork of internal/config/config.go read.
use mathlib.Core.Path.{subst}
use kite_kvm.Model.{NetworkMode}
use kite_kvm.Network.Subnet.{NetLib}
use kite_kvm.Config.Validation.{
  check_mode, network_ids, network_loop, network_of, new_manager, is_empty, validate,
  validate_networks,
}
use kite_kvm.Config.Settings.{NetworkEntry, Settings}
use kite_kvm.Network.Strategy.{last_network}
use kite_kvm.Config.{ConfigNetwork, flagged_network, network_by_id, default_network}
use kite_kvm.Prelude.{
  Bool-cases, Distinct, List, String, [], arith, contains, eq_iff, false, inl, inr, map, none, refl,
  some, true, ◌∷◌, ◌≡◌, ap, contains_self, if◌then◌else◌, ok, str_eq, ℕ, ◌+◌, Bool, Option-cases,
  Result-cases, sym, ◌∙◌,
}

-- the ids of the networks
abbrev ids : List ConfigNetwork → List String
ids = map (λ n. n.id)

network_by_id-absent :
    (id : String) (ns : List ConfigNetwork)
    → contains id (ids ns) ≡ false
    → network_by_id id ns ≡ none
unfolding network_by_id contains
network_by_id-absent id [] h = refl
network_by_id-absent id (n ∷ ns) h = ground (arith, network_by_id-absent id ns)

last_network-first :
    (id : String) (ns : List ConfigNetwork)
    → Distinct (ids ns)
    → last_network id ns ≡ network_by_id id ns
unfolding network_by_id last_network
last_network-first id [] d = refl
last_network-first id (n ∷ ns) d =
    ground (arith, eq_iff n.id id, last_network-first id ns d.1, network_by_id-absent n.id ns d.0)

flagged_network-found :
    (d : ConfigNetwork) (ns : List ConfigNetwork)
    → Distinct (ids ns)
    → flagged_network ns ≡ some d
    → (contains d.id (ids ns) ≡ true) × (network_by_id d.id ns ≡ some d)
unfolding network_by_id flagged_network contains
flagged_network-found d [] u h = ground arith
flagged_network-found d (n ∷ ns) u h = elim (Bool-cases (n.is_default)) [
  | inl e ↦ ground (arith, eq_iff n.id n.id)
  | inr e ↦ ground (arith, eq_iff n.id d.id, u.0, flagged_network-found d ns u.1)
]

-- what the loop of validateNetworks has checked of the networks that it has not refused
record IsOneEach (seen : List String) (ns : List NetworkEntry) : Type 0 where
  nets : List ConfigNetwork
  built : new_manager ns ≡ ok nets
  same_ids : ids nets ≡ network_ids ns
  distinct : Distinct (network_ids ns)
  unseen : (id : String) → contains id seen ≡ true → contains id (network_ids ns) ≡ false

-- an entry of a mode that the manager has a strategy for
check_mode-new_manager :
    (lib : NetLib) (n : NetworkEntry) (ns : List NetworkEntry) (nets : List ConfigNetwork)
    → check_mode lib n ≡ true
    → new_manager ns ≡ ok nets
    → (mode : NetworkMode) × (new_manager (n ∷ ns) ≡ ok (network_of mode n ∷ nets))
unfolding check_mode new_manager
check_mode-new_manager lib n ns nets c e = elim (Bool-cases (str_eq n.mode "nat")) [
  | inl h ↦ (NetworkMode.nat, ground (arith, e))
  | inr h ↦ (NetworkMode.bridge, ground (arith, e))
]

network_loop-IsOneEach :
    (lib : NetLib) (seen : List String) (k : ℕ) (ns : List NetworkEntry) (m : ℕ)
    → network_loop lib seen k ns ≡ ok m
    → IsOneEach seen ns
unfolding network_loop new_manager contains
network_loop-IsOneEach lib seen k [] m h = record {
  nets = [];
  built = refl;
  same_ids = refl;
  distinct = tt;
  unseen = λ id c. refl;
}
network_loop-IsOneEach lib seen k (n ∷ ns) m h =
    let count = if n.is_default then k + 1 else k in
    let fresh : contains n.id seen ≡ false = ground arith in
    let mode_ok : check_mode lib n ≡ true = ground arith in
    let rest : IsOneEach (n.id ∷ seen) ns =
      network_loop-IsOneEach lib (n.id ∷ seen) count ns m (ground arith) in
    let found = check_mode-new_manager lib n ns rest.nets mode_ok rest.built in
    record {
      nets = network_of found.0 n ∷ rest.nets;
      built = found.1;
      same_ids = ap (λ is. n.id ∷ is) rest.same_ids;
      distinct = (rest.unseen n.id (contains_self n.id seen), rest.distinct);
      unseen = λ id c. ground (arith, eq_iff n.id id, rest.unseen id);
    }

validate-network_loop :
    (lib : NetLib) (float_negative : ℕ → Bool) (c : Settings)
    → validate lib float_negative c ≡ ok tt
    → (is_empty c.networks ≡ false) × (m : ℕ) × (network_loop lib [] 0 c.networks ≡ ok m)
unfolding validate validate_networks
validate-network_loop lib float_negative c h =
    elim (Result-cases (network_loop lib [] 0 c.networks)) [
      | inl (x, e) ↦ ground (arith, e)
      | inr (m, e) ↦ (ground arith, m, e)
    ]

-- an accepted configuration has a default network, and it is found under its id
default_network-found :
    (n : ConfigNetwork) (ns : List ConfigNetwork)
    → Distinct (ids (n ∷ ns))
    → (d : ConfigNetwork) × (default_network (n ∷ ns) ≡ some d)
      × (network_by_id d.id (n ∷ ns) ≡ some d)
unfolding default_network network_by_id
default_network-found n ns u = elim (Option-cases (flagged_network (n ∷ ns))) [
  | inr (d, e) ↦ (d, ground (arith, e), (flagged_network-found d (n ∷ ns) u e).1)
  | inl e ↦ (n, ground (arith, e), ground (arith, eq_iff n.id n.id))
]

-- not empty, as the list with a head
is_empty-cons :
    (ns : List NetworkEntry)
    → is_empty ns ≡ false
    → (n : NetworkEntry) × (rest : List NetworkEntry) × (ns ≡ n ∷ rest)
is_empty-cons [] h = ground arith
is_empty-cons (n ∷ ns) h = (n, ns, refl)

has_default :
    (nets : List ConfigNetwork) (n : NetworkEntry) (rest : List NetworkEntry)
    → Distinct (ids nets)
    → ids nets ≡ network_ids (n ∷ rest)
    → (d : ConfigNetwork) × (default_network nets ≡ some d) × (network_by_id d.id nets ≡ some d)
has_default [] n rest u h = ground (arith, h)
has_default (m ∷ nets) n rest u h = default_network-found m nets u

-- If Validate accepts a configuration, then NewManager succeeds on its networks; under every id the
-- manager keeps the network that NetworkByID finds; and there is a default network, which the
-- manager keeps under its own id.
pub validate-new_manager :
    (lib : NetLib) (float_negative : ℕ → Bool) (c : Settings) (id : String)
    → validate lib float_negative c ≡ ok tt
    → (nets : List ConfigNetwork) × (new_manager c.networks ≡ ok nets)
      × (last_network id nets ≡ network_by_id id nets)
      × (d : ConfigNetwork) × (default_network nets ≡ some d)
      × (last_network d.id nets ≡ some d)
validate-new_manager lib float_negative c id h =
    let looped = validate-network_loop lib float_negative c h in
    let each = network_loop-IsOneEach lib [] 0 c.networks looped.1 looped.2 in
    let u : Distinct (ids each.nets) = subst Distinct (sym each.same_ids) each.distinct in
    let cons = is_empty-cons c.networks looped.0 in
    let found = has_default each.nets cons.0 cons.1 u (each.same_ids ∙ ap network_ids cons.2) in
    (
      each.nets,
      each.built,
      last_network-first id each.nets u,
      found.0,
      found.1,
      last_network-first found.0.id each.nets u ∙ found.2,
    )
