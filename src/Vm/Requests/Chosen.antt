-- ===== src/Vm/Requests/Chosen.antt =====
-- What Create's resolveNetwork and its choice of a host name come to: internal/vm/service.go.
use kite_kvm.Network.Strategy.{first_chars}
use kite_kvm.Vm.Requests.Validation.{validate_hostname}
use Prim.Native.String.{◌++◌ as str_append}
use mathlib.Core.Path.{subst}
use kite_kvm.Prelude.{
  Bool-cases, List, Option, Option-cases, Result-cases, String, [], ap, arith, err, false, inl, inr,
  keep, none, not, ok, refl, some, str_eq, sym, true, ◌||◌, ◌∙◌, ◌∷◌, ◌≡◌, ◌⊎◌,
}
use kite_kvm.Vm.Requests.Create.{
  NetworkRequest, hostname_of, mode_text, of_mode, or_network_not_found, resolve_network,
}
use kite_kvm.Config.{ConfigNetwork, default_network, flagged_network, network_by_id}

-- one of the configured networks
abbrev pub IsAmong : ConfigNetwork → List ConfigNetwork → Type 0
IsAmong w [] = ⊥
IsAmong w (n ∷ ns) = (w ≡ n) ⊎ IsAmong w ns

-- A configured network, with the id that the request names; or, if it names none, of the mode that
-- it names, where it names one.
abbrev pub IsChosen : NetworkRequest → List ConfigNetwork → ConfigNetwork → Type 0
IsChosen req networks w =
    IsAmong w networks
    × ((str_eq req.network_id "" || str_eq w.id req.network_id) ≡ true)
    × ((not (str_eq req.network_id "") || str_eq req.mode "" || str_eq (mode_text w.mode) req.mode)
        ≡ true)

network_by_id-IsAmong :
    (id : String) (networks : List ConfigNetwork) (w : ConfigNetwork)
    → network_by_id id networks ≡ some w
    → IsAmong w networks × (str_eq w.id id ≡ true)
unfolding network_by_id
network_by_id-IsAmong id [] w h = ground (arith, h)
network_by_id-IsAmong id (n ∷ ns) w h = elim (Bool-cases (str_eq n.id id)) [
  | inl here ↦
      let same : some n ≡ some w = sym (rw here refl) ∙ h in
      let w_is : w ≡ n = cc same in (inl w_is, ap (λ x. str_eq x.id id) w_is ∙ here)
  | inr not_here ↦
      let later : network_by_id id ns ≡ some w = sym (rw not_here refl) ∙ h in
      let rest = network_by_id-IsAmong id ns w later in (inr rest.0, rest.1)
]

flagged_network-IsAmong :
    (networks : List ConfigNetwork) (w : ConfigNetwork)
    → flagged_network networks ≡ some w
    → IsAmong w networks
unfolding flagged_network
flagged_network-IsAmong [] w h = ground (arith, h)
flagged_network-IsAmong (n ∷ ns) w h = elim (Bool-cases (n.is_default)) [
  | inl here ↦ let same : some n ≡ some w = sym (rw here refl) ∙ h in inl (cc same)
  | inr not_here ↦
      let later : flagged_network ns ≡ some w = sym (rw not_here refl) ∙ h in
      inr (flagged_network-IsAmong ns w later)
]

default_network-IsAmong :
    (networks : List ConfigNetwork) (w : ConfigNetwork)
    → default_network networks ≡ some w
    → IsAmong w networks
unfolding default_network
default_network-IsAmong [] w h = ground (arith, h)
default_network-IsAmong (n ∷ ns) w h = elim (Option-cases (flagged_network (n ∷ ns))) [
  | inl nothing ↦
      let same : some n ≡ some w = sym (rw (nothing, default_network) refl) ∙ h in inl (cc same)
  | inr (d, flagged) ↦
      let same : some d ≡ some w = sym (rw (flagged, default_network) refl) ∙ h in
      flagged_network-IsAmong (n ∷ ns) w (flagged ∙ same)
]

of_mode-IsAmong :
    (mode : String) (networks : List ConfigNetwork) (w : ConfigNetwork)
    → IsAmong w (of_mode mode networks)
    → IsAmong w networks × (str_eq (mode_text w.mode) mode ≡ true)
unfolding keep
of_mode-IsAmong mode [] w h = absurd h
of_mode-IsAmong mode (n ∷ ns) w h = elim (Bool-cases (str_eq (mode_text n.mode) mode)) [
  | inl here ↦
      let kept : of_mode mode (n ∷ ns) ≡ n ∷ of_mode mode ns = rw here refl in
      let among : IsAmong w (n ∷ of_mode mode ns) = subst (IsAmong w) kept h in
      elim among [
        | inl w_is ↦ (inl w_is, ap (λ x. str_eq (mode_text x.mode) mode) w_is ∙ here)
        | inr later ↦ let rest = of_mode-IsAmong mode ns w later in (inr rest.0, rest.1)
      ]
  | inr not_here ↦
      let kept : of_mode mode (n ∷ ns) ≡ of_mode mode ns = rw not_here refl in
      let among : IsAmong w (of_mode mode ns) = subst (IsAmong w) kept h in
      let rest = of_mode-IsAmong mode ns w among in (inr rest.0, rest.1)
]

or_network_not_found-some :
    (o : Option ConfigNetwork) (w : ConfigNetwork) → or_network_not_found o ≡ ok w → o ≡ some w
or_network_not_found-some none w h = ground (arith, h)
or_network_not_found-some (some n) w h = ap some (cc h)

pub resolve_network-IsChosen :
    (req : NetworkRequest) (networks : List ConfigNetwork) (w : ConfigNetwork)
    → resolve_network req networks ≡ ok w
    → IsChosen req networks w
unfolding resolve_network
resolve_network-IsChosen req networks w h = elim (Bool-cases (str_eq req.network_id "")) [
  | inr named ↦
      let found : or_network_not_found (network_by_id req.network_id networks) ≡ ok w =
        sym (rw named refl) ∙ h in
      let among =
        network_by_id-IsAmong req.network_id networks w
          (or_network_not_found-some (network_by_id req.network_id networks) w found) in
      (among.0, rw (named, among.1) refl, rw named refl)
  | inl unnamed ↦ elim (Bool-cases (str_eq req.mode "")) [
    | inr moded ↦
        let found : or_network_not_found (default_network (of_mode req.mode networks)) ≡ ok w =
          sym (rw (unnamed, moded) refl) ∙ h in
        let first =
          default_network-IsAmong (of_mode req.mode networks) w
            (or_network_not_found-some (default_network (of_mode req.mode networks)) w found) in
        let among = of_mode-IsAmong req.mode networks w first in
        (among.0, rw unnamed refl, rw (unnamed, moded, among.1) refl)
    | inl unmoded ↦
        let found : or_network_not_found (default_network networks) ≡ ok w =
          sym (rw (unnamed, unmoded) refl) ∙ h in
        let among =
          default_network-IsAmong networks w
            (or_network_not_found-some (default_network networks) w found) in
        (among, rw unnamed refl, rw (unnamed, unmoded) refl)
  ]
]

-- The host name is the trimmed one of the request, which is not blank and is a host name by
-- hostnameRE and its length; or that is blank, and the name is made from the id.
abbrev pub IsNamed : String → String → String → Type 0
IsNamed trimmed id name =
    ((str_eq trimmed "" ≡ true) × (name ≡ str_append "vm-" (first_chars 8 id)))
    ⊎ ((str_eq trimmed "" ≡ false) × (name ≡ trimmed) × (validate_hostname name ≡ ok tt))

pub hostname_of-IsNamed :
    (trimmed id name : String) → hostname_of trimmed id ≡ ok name → IsNamed trimmed id name
unfolding hostname_of
hostname_of-IsNamed trimmed id name h = elim (Bool-cases (str_eq trimmed "")) [
  | inl blank ↦
      let same : ok (str_append "vm-" (first_chars 8 id)) ≡ ok name = sym (rw blank refl) ∙ h in
      inl (blank, cc same)
  | inr given ↦ elim (Result-cases (validate_hostname trimmed)) [
    | inl (e, refused) ↦ let went : err e ≡ ok name = sym (rw (given, refused) refl) ∙ h in cc went
    | inr (u, valid) ↦
        let same : ok trimmed ≡ ok name = sym (rw (given, valid) refl) ∙ h in
        let it : trimmed ≡ name = cc same in
        inr (given, sym it, ap validate_hostname (sym it) ∙ valid)
  ]
]
