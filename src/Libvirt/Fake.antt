-- ===== src/Libvirt/Fake.antt =====
-- internal/libvirt/fake.go: the hypervisor of tests and development. Its maps are rows with a name
-- where they are listed, and functions otherwise; `clock` is what time.Now() reads.
pub mod PowerStates
pub mod Calls
use kite_kvm.Prelude.Texts.{split_at_first}
use kite_kvm.Store.Table.{delete_at, find, update_at}
use kite_kvm.Libvirt.{DomainState, DomainStats, SnapshotInfo, state_shutoff}
use kite_kvm.Prelude.Effects.{Exec}
use Prim.Native.String.{◌++◌ as str_append, compare as str_compare}
use Prim.Native.Nat.{Ordering}
use Prim.Native.Char.{code}
use kite_kvm.Prelude.{
  String, Bool, Error, List, Option, Result, [], domain_not_found, err, false, if◌then◌else◌, none,
  ok, other, some, str_eq, true, ℕ, ◌++◌, ◌==◌, ◌∷◌,
}

pub record FakeDomain : Type 0 where
  pub name : String
  pub uuid : String
  pub xml : String
  pub state : DomainState

pub record DhcpHost : Type 0 where
  pub name : String
  pub ip : String

pub record Fake : Type 0 where
  pub ping_err : Option Error
  pub base_dir : String
  pub domains : List FakeDomain
  pub volumes : String → Option String
  pub dhcp : String → String → Option DhcpHost
  pub stats : String → Option DomainStats
  pub snapshots : String → List SnapshotInfo
  pub link_down : String → Bool
  pub clock : ℕ

-- NewFake
unfoldable pub new_fake : ℕ → Fake
new_fake now = record {
  ping_err = none;
  base_dir = "/var/lib/libvirt/images";
  domains = [];
  volumes = λ key. none;
  dhcp = λ network mac. none;
  stats = λ name. none;
  snapshots = λ domain. [];
  link_down = λ domain. false;
  clock = now;
}

abbrev pub domain_key : FakeDomain → String
domain_key d = d.name

-- m[key] = value
abbrev pub set_at : {A : Type 0} → String → A → (String → A) → String → A
set_at key value m k = if str_eq key k then value else m k

-- domainNameFromXML
unfoldable pub domain_name_from_xml : String → Result String
domain_name_from_xml xml = elim (split_at_first "<name>" xml) [
  | none ↦ err other
  | some p ↦ elim (split_at_first "</name>" p.1) [ none ↦ err other | some q ↦ ok q.0 ]
]

-- strings.Contains
abbrev pub has_text : String → String → Bool
has_text mark s = elim (split_at_first mark s) [ none ↦ false | some p ↦ true ]

-- sort.Strings and sort.Slice, by the name
unfoldable pub insert_named : {A : Type 0} → (A → String) → A → List A → List A
insert_named name a [] = a ∷ []
insert_named name a (b ∷ bs) =
    let rest = insert_named name a bs in
    elim (str_compare (name a) (name b)) [ Ordering.gt ↦ b ∷ rest | _ ↦ a ∷ b ∷ bs ]

unfoldable pub sort_named : {A : Type 0} → (A → String) → List A → List A
sort_named name [] = []
sort_named name (a ∷ rest) = insert_named name a (sort_named name rest)

-- requireDomain: `fn` changes the domain of the map
unfoldable pub require_domain : String → (FakeDomain → FakeDomain) → Exec Fake (Unit {0})
require_domain name fn f = elim (find domain_key name f.domains) [
  | none ↦ (err domain_not_found, f)
  | some d ↦ (ok tt, record f { domains = update_at domain_key name fn f.domains })
]

-- setState
unfoldable pub set_state : DomainState → String → Exec Fake (Unit {0})
set_state st name = require_domain name (λ d. record d { state = st })

-- a call that needs the domain and reads
unfoldable pub read_domain : {A : Type 0} → (FakeDomain → Fake → A) → String → Exec Fake A
read_domain get name f = elim (find domain_key name f.domains) [
  | none ↦ (err domain_not_found, f)
  | some d ↦ (ok (get d f), f)
]

-- DefineDomain
unfoldable pub define_domain : String → Exec Fake String
define_domain xml f = elim (domain_name_from_xml xml) [
  | err e ↦ (err e, f)
  | ok name ↦ elim (find domain_key name f.domains) [
    | some d ↦ (
      ok d.uuid,
      record f { domains = update_at domain_key name (λ d'. record d' { xml = xml }) f.domains },
    )
    | none ↦
        let d : FakeDomain = record {
          name = name;
          uuid = str_append "fake-uuid-" name;
          xml = xml;
          state = state_shutoff;
        } in
        (ok d.uuid, record f { domains = f.domains ++ d ∷ [] })
  ]
]

-- UndefineDomain
unfoldable pub undefine_domain : String → Exec Fake (Unit {0})
undefine_domain name f = elim (find domain_key name f.domains) [
  | none ↦ (err domain_not_found, f)
  | some d ↦ (ok tt, record f { domains = delete_at domain_key name f.domains })
]

-- UpdateInterface
unfoldable pub update_interface : String → String → Exec Fake (Unit {0})
update_interface domain xml f = elim (find domain_key domain f.domains) [
  | none ↦ (err domain_not_found, f)
  | some d ↦
      let down = has_text "state=\"down\"" xml in
      (ok tt, record f { link_down = set_at domain down f.link_down })
]
