-- ===== src/Libvirt/Fake/PowerStates.antt =====
-- The calls of internal/libvirt/fake.go on domains, against an independent description: a map from
-- names to power states.
use kite_kvm.Libvirt.Fake.Calls.{fake_conn}
use Prim.Native.String.{◌++◌ as str_append}
use mathlib.Core.Path.{ap₂, fun_ext}
use kite_kvm.Store.Table.{find, find-append, find-delete_at, find-update_at_same}
use kite_kvm.Libvirt.Fake.{
  Fake, domain_key, domain_name_from_xml, set_at, FakeDomain, require_domain, define_domain,
  undefine_domain, read_domain, set_state,
}
use kite_kvm.Libvirt.{Conn, DomainState, state_paused, state_running, state_shutoff, SeedFile}
use kite_kvm.Prelude.Effects.{Exec}
use kite_kvm.Prelude.{
  String, Option, Result, domain_not_found, err, none, ok, some, Option-cases, arith, eq_iff, inl,
  inr, ◌≡◌, Result-cases, refl, List, [], ap, ◌∙◌, ◌∷◌,
}

-- the calls that change domains
pub data DomainCall : Type 0 where
  define : String → DomainCall
  start shutdown reboot destroy suspend resume undefine : String → DomainCall

-- which domains there are, and in what state
abbrev pub PowerMap : Type 0
PowerMap = String → Option DomainState

-- a domain that is there goes over to a state
abbrev pub moved : String → Option DomainState → PowerMap → Result (Unit {0}) × PowerMap
moved name next m = elim (m name) [
  | none ↦ (err domain_not_found, m)
  | some st ↦ (ok tt, set_at name next m)
]

-- a definition adds a domain that is shut off, or leaves the state of the one that is there
abbrev pub defined : Result String → PowerMap → Result (Unit {0}) × PowerMap
defined (err e) m = (err e, m)
defined (ok name) m = elim (m name) [
  | none ↦ (ok tt, set_at name (some state_shutoff) m)
  | some st ↦ (ok tt, m)
]

-- what a call does to the map
unfoldable pub power_step : DomainCall → PowerMap → Result (Unit {0}) × PowerMap
power_step (define xml) m = defined (domain_name_from_xml xml) m
power_step (start name) m = moved name (some state_running) m
power_step (shutdown name) m = moved name (some state_shutoff) m
power_step (reboot name) m = moved name (m name) m
power_step (destroy name) m = moved name (some state_shutoff) m
power_step (suspend name) m = moved name (some state_paused) m
power_step (resume name) m = moved name (some state_running) m
power_step (undefine name) m = moved name none m

abbrev pub forget_value : {A : Type 0} → Result A × Fake → Result (Unit {0}) × Fake
forget_value (err e, f) = (err e, f)
forget_value (ok a, f) = (ok tt, f)

module _ (conn : Conn Fake) where
  -- the same call of a Conn
  unfoldable pub call : DomainCall → Exec Fake (Unit {0})
  call (define xml) f = forget_value (conn.define_domain xml f)
  call (start name) f = conn.start_domain name f
  call (shutdown name) f = conn.shutdown_domain name f
  call (reboot name) f = conn.reboot_domain name f
  call (destroy name) f = conn.destroy_domain name f
  call (suspend name) f = conn.suspend_domain name f
  call (resume name) f = conn.resume_domain name f
  call (undefine name) f = conn.undefine_domain name f

-- the power states of the fake's domains
unfoldable pub power_map : Fake → PowerMap
power_map f name = elim (find domain_key name f.domains) [ none ↦ none | some d ↦ some d.state ]

module _ (name : String) (fn : FakeDomain → FakeDomain) (f : Fake) where
  -- a call of `requireDomain` that sets the state of the domain in one way
  require_domain-moved :
      (next : Option DomainState)
      → ((d : FakeDomain) → (fn d).name ≡ d.name)
      → ((d : FakeDomain) → find domain_key name f.domains ≡ some d → some (fn d).state ≡ next)
      → ((require_domain name fn f).0 ≡ (moved name next (power_map f)).0)
        × ((k : String)
            → power_map (require_domain name fn f).1 k ≡ (moved name next (power_map f)).1 k)
  unfolding require_domain power_map
  require_domain-moved next named state = elim (Option-cases (find domain_key name f.domains)) [
    | inl e ↦ (ground (arith, e), λ k. ground (arith, e))
    | inr (d, e) ↦ (
      ground (arith, e),
      λ k.
          let set = find-update_at_same domain_key k name fn f.domains named in
          ground (arith, e, set, state d e, eq_iff name k),
    )
  ]

-- the answer and the map after a call are those that the description gives
abbrev pub IsStep : (Result (Unit {0}) × Fake) → (Result (Unit {0}) × PowerMap) → Type 0
IsStep done step = (done.0 ≡ step.0) × ((k : String) → power_map done.1 k ≡ step.1 k)

undefine_domain-moved :
    (name : String) (f : Fake) → IsStep (undefine_domain name f) (moved name none (power_map f))
unfolding undefine_domain power_map
undefine_domain-moved name f = elim (Option-cases (find domain_key name f.domains)) [
  | inl e ↦ (ground (arith, e), λ k. ground (arith, e))
  | inr (d, e) ↦ (
    ground (arith, e),
    λ k. let gone = find-delete_at domain_key k name f.domains in ground (arith, e, gone),
  )
]

define_domain-defined :
    (xml : String) (f : Fake)
    → IsStep (forget_value (define_domain xml f)) (defined (domain_name_from_xml xml) (power_map f))
unfolding define_domain power_map
define_domain-defined xml f = elim (Result-cases (domain_name_from_xml xml)) [
  | inl (x, bad) ↦ (ground (arith, bad), λ k. ground (arith, bad))
  | inr (name, named) ↦ elim (Option-cases (find domain_key name f.domains)) [
    | inr (d, e) ↦
        let set : FakeDomain → FakeDomain = λ d'. record d' { xml = xml } in
        (
          ground (arith, named, e),
          λ k.
              let kept = find-update_at_same domain_key k name set f.domains (λ r. refl) in
              ground (arith, named, e, kept, eq_iff name k),
        )
    | inl e ↦
        let d : FakeDomain = record {
          name = name;
          uuid = str_append "fake-uuid-" name;
          xml = xml;
          state = state_shutoff;
        } in
        (
          ground (arith, named, e),
          λ k.
              let added = find-append domain_key k f.domains d in
              ground (arith, named, e, added, eq_iff name k),
        )
  ]
]

-- the answers of a history of calls on the map, and the map after it
unfoldable pub power_steps : List DomainCall → PowerMap → List (Result (Unit {0})) × PowerMap
power_steps [] m = ([], m)
power_steps (c ∷ cs) m =
    let done = power_step c m in let rest = power_steps cs done.1 in (done.0 ∷ rest.0, rest.1)

-- the Conn of a fake
module _ (join_path : String → String → String)
    (build_seed : String → List SeedFile → Exec Fake (Unit {0}))
    (remove : String → Exec Fake (Unit {0})) where
  abbrev pub conn : Conn Fake
  conn = fake_conn join_path build_seed remove

  -- each call of the fake does what the description says
  call-power_step :
      (c : DomainCall) (f : Fake) → IsStep (call conn c f) (power_step c (power_map f))
  unfolding call power_step fake_conn set_state
  call-power_step (define xml) f = define_domain-defined xml f
  call-power_step (start name) f =
      require_domain-moved name (λ d. record d { state = state_running }) f (some state_running)
        (λ d. refl) (λ d e. refl)
  call-power_step (shutdown name) f =
      require_domain-moved name (λ d. record d { state = state_shutoff }) f (some state_shutoff)
        (λ d. refl) (λ d e. refl)
  call-power_step (reboot name) f =
      require_domain-moved name (λ d. d) f (power_map f name) (λ d. refl)
        (λ d e. unfold power_map in ground (arith, e))
  call-power_step (destroy name) f =
      require_domain-moved name (λ d. record d { state = state_shutoff }) f (some state_shutoff)
        (λ d. refl) (λ d e. refl)
  call-power_step (suspend name) f =
      require_domain-moved name (λ d. record d { state = state_paused }) f (some state_paused)
        (λ d. refl) (λ d e. refl)
  call-power_step (resume name) f =
      require_domain-moved name (λ d. record d { state = state_running }) f (some state_running)
        (λ d. refl) (λ d e. refl)
  call-power_step (undefine name) f = undefine_domain-moved name f

  -- the same of the fake
  unfoldable pub calls : List DomainCall → Fake → List (Result (Unit {0})) × Fake
  calls [] f = ([], f)
  calls (c ∷ cs) f =
      let done = call conn c f in let rest = calls cs done.1 in (done.0 ∷ rest.0, rest.1)

  steps-refine :
      (cs : List DomainCall) (f : Fake)
      → ((calls cs f).0 ≡ (power_steps cs (power_map f)).0)
        × (power_map (calls cs f).1 ≡ (power_steps cs (power_map f)).1)
  unfolding calls power_steps
  steps-refine [] f = (refl, refl)
  steps-refine (c ∷ cs) f =
      let (answer, maps) = call-power_step c f in
      let same : power_map (call conn c f).1 ≡ (power_step c (power_map f)).1 = fun_ext maps in
      let (answers, last) = steps-refine cs (call conn c f).1 in
      (
        ap₂ (λ r rs. r ∷ rs) answer (answers ∙ ap (λ m. (power_steps cs m).0) same),
        last ∙ ap (λ m. (power_steps cs m).1) same,
      )

  -- After any history of calls that define, undefine, start, shut down, reboot, destroy, suspend and
  -- resume domains, on any fake: each call has succeeded or failed as on a plain map from names to
  -- power states, and DomainState answers for every name what that map holds, or that there is no
  -- such domain.
  pub calls-refine :
      (cs : List DomainCall) (f : Fake) (name : String)
      → let after = (calls cs f).1 in
        ((calls cs f).0 ≡ (power_steps cs (power_map f)).0)
        × ((conn.domain_state name after).0 ≡ elim ((power_steps cs (power_map f)).1 name) [
          | none ↦ err domain_not_found
          | some st ↦ ok st
        ])
  unfolding read_domain power_map fake_conn
  calls-refine cs f name =
      let (answers, last) = steps-refine cs f in
      let there : power_map (calls cs f).1 name ≡ (power_steps cs (power_map f)).1 name =
        ap (λ m. m name) last in
      (answers, ground (arith, there))
