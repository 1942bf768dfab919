-- ===== src/Network/Pool/Candidates.antt =====
-- What holds of the candidates of a bridge network.
use mathlib.Core.Path.{subst}
use kite_kvm.Prelude.{
  Bool-cases, List, String, [], arith, contains, contains-append, eq_iff, false, inl, inr, str_eq,
  sym, ◌++◌, ◌∙◌, ◌∷◌, ◌≡◌, contains_self, leb, length, length-append, true, ℕ, ◌+◌, ◌<◌, ◌≤◌, ◌⊎◌,
  Distinct, Distinct-append,
}
use kite_kvm.Network.Pool.{Pool, add, add_hosts}

-- what holds of `seen` and `out` in every round
pub record IsPool (gateway : String) (p : Pool) : Type 0 where
  pub distinct : Distinct p.out
  pub seen_out : (x : String) → contains x p.seen ≡ contains x p.out
  pub no_gateway : contains gateway p.out ≡ false

add_new-IsPool :
    (gateway ip : String) (p : Pool)
    → str_eq ip gateway ≡ false
    → contains ip p.seen ≡ false
    → IsPool gateway p
    → IsPool gateway (record { seen = ip ∷ p.seen; out = p.out ++ ip ∷ [] })
unfolding contains
add_new-IsPool gateway ip p differs new v = record {
  distinct = Distinct-append p.out ip v.distinct (sym (v.seen_out ip) ∙ new);
  seen_out = λ x. ground (arith, v.seen_out x, contains-append x p.out (ip ∷ []));
  no_gateway = ground (arith, differs, v.no_gateway, contains-append gateway p.out (ip ∷ []));
}

add-IsPool : (gateway ip : String) (p : Pool) → IsPool gateway p → IsPool gateway (add gateway ip p)
unfolding add
add-IsPool gateway ip p v = elim (Bool-cases (str_eq ip gateway)) [
  | inl same ↦ rw same v
  | inr differs ↦ elim (Bool-cases (contains ip p.seen)) [
    | inl old ↦ rw (differs, old) v
    | inr new ↦ rw differs (rw new (add_new-IsPool gateway ip p differs new v))
  ]
]

pub add_hosts-IsPool :
    (gateway : String) (max : ℕ) (hosts : List String) (p : Pool)
    → IsPool gateway p
    → IsPool gateway (add_hosts gateway max hosts p)
unfolding add_hosts
add_hosts-IsPool gateway max [] p v = v
add_hosts-IsPool gateway max (h ∷ hosts) p v =
    let next = add-IsPool gateway h p v in
    elim (Bool-cases (leb max (length (add gateway h p).out))) [
      | inl full ↦ rw full next
      | inr more ↦ rw more (add_hosts-IsPool gateway max hosts (add gateway h p) next)
    ]

-- `add` appends at most one address
length-add : (gateway ip : String) (p : Pool) → length (add gateway ip p).out ≤ length p.out + 1
unfolding add
length-add gateway ip p = ground (arith, length-append p.out (ip ∷ []))

pub length-add_hosts :
    (gateway : String) (max : ℕ) (hosts : List String) (p : Pool)
    → length p.out < max
    → length (add_hosts gateway max hosts p).out ≤ max
unfolding add_hosts
length-add_hosts gateway max [] p h = omega arith
length-add_hosts gateway max (ip ∷ hosts) p h =
    ground (arith, length-add gateway ip p, length-add_hosts gateway max hosts (add gateway ip p))

-- what a pool holds stays in it
add-keeps :
    (x gateway ip : String) (p : Pool)
    → contains x p.out ≡ true
    → contains x (add gateway ip p).out ≡ true
unfolding add
add-keeps x gateway ip p h = ground (arith, contains-append x p.out (ip ∷ []))

-- `add` leaves the address in the pool, unless it is the gateway's
add-holds :
    (gateway ip : String) (p : Pool)
    → IsPool gateway p
    → str_eq ip gateway ≡ false
    → contains ip (add gateway ip p).out ≡ true
unfolding add
add-holds gateway ip p v differs =
    ground (arith, v.seen_out ip, contains-append ip p.out (ip ∷ []), contains_self ip [])

-- what `add_hosts` leaves in the pool came from it or from the hosts
pub add_hosts_origin :
    (x gateway : String) (max : ℕ) (hosts : List String) (p : Pool)
    → contains x (add_hosts gateway max hosts p).out ≡ true
    → (contains x p.out ≡ true) ⊎ (contains x hosts ≡ true)
unfolding add_hosts add contains
add_hosts_origin x gateway max [] p h = inl h
add_hosts_origin x gateway max (ip ∷ hosts) p h = ground (
  arith,
  add_hosts_origin x gateway max hosts (add gateway ip p),
  contains-append x p.out (ip ∷ []),
)

pub add_hosts-keeps :
    (x gateway : String) (max : ℕ) (hosts : List String) (p : Pool)
    → contains x p.out ≡ true
    → contains x (add_hosts gateway max hosts p).out ≡ true
unfolding add_hosts
add_hosts-keeps x gateway max [] p h = h
add_hosts-keeps x gateway max (ip ∷ hosts) p h =
    ground (arith, add-keeps x gateway ip p, add_hosts-keeps x gateway max hosts (add gateway ip p))

-- while there is room, every host but the gateway is left in the pool
pub add_hosts-holds :
    (x gateway : String) (max : ℕ) (hosts : List String) (p : Pool)
    → IsPool gateway p
    → contains x hosts ≡ true
    → str_eq x gateway ≡ false
    → length (add_hosts gateway max hosts p).out < max
    → contains x (add_hosts gateway max hosts p).out ≡ true
unfolding add_hosts contains
add_hosts-holds x gateway max [] p v m d room = cc
add_hosts-holds x gateway max (ip ∷ hosts) p v m d room =
    let next = add-IsPool gateway ip p v in
    elim (Bool-cases (leb max (length (add gateway ip p).out))) [
      | inl full ↦ absurd (ground (arith, full, room))
      | inr more ↦ elim (Bool-cases (str_eq ip x)) [
        | inl same ↦
            let e : ip ≡ x = (eq_iff ip x).0 same in
            rw more (
              add_hosts-keeps x gateway max hosts (add gateway ip p) (
                subst (λ y. contains x (add gateway y p).out ≡ true) (sym e)
                  (add-holds gateway x p v d)))
        | inr other_host ↦ rw more (
            add_hosts-holds x gateway max hosts (add gateway ip p) next
              (ground (arith, m, other_host)) d (ground (arith, more, room)))
      ]
    ]

pub length-le-add_hosts :
    (gateway : String) (max : ℕ) (hosts : List String) (p : Pool)
    → length p.out ≤ length (add_hosts gateway max hosts p).out
unfolding add_hosts add
length-le-add_hosts gateway max [] p = omega arith
length-le-add_hosts gateway max (ip ∷ hosts) p =
    ground (
      arith,
      length-append p.out (ip ∷ []),
      length-le-add_hosts gateway max hosts (add gateway ip p),
    )
