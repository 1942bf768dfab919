-- ===== src/Network/Pool.antt =====
-- The candidates of a bridge network: `expandPool` of internal/network/bridge.go.
pub mod Candidates
pub mod Expansion
use Prim.Native.Char.{code}
use kite_kvm.Prelude.{
  Bool, List, Option, Result, String, [], contains, err, false, if◌then◌else◌, leb, length, none,
  ok, other, some, str_eq, ℕ, ◌++◌, ◌==◌, ◌||◌, ◌∷◌,
}
use kite_kvm.Network.Subnet.{NetLib, expand_cidr_hosts}

-- The variables `seen` and `out` of the loop.
pub record Pool : Type 0 where
  pub seen : List String
  pub out : List String

abbrev pub empty_pool : Pool
empty_pool = record { seen = []; out = [] }

-- the closure `add`
unfoldable pub add : String → String → Pool → Pool
add gateway ip p =
    if str_eq ip gateway
    then p
    else if contains ip p.seen
    then p
    else record { seen = ip ∷ p.seen; out = p.out ++ ip ∷ [] }

-- for _, h := range hosts { add(h); if len(out) >= max { break } }
unfoldable pub add_hosts : String → ℕ → List String → Pool → Pool
add_hosts gateway max [] p = p
add_hosts gateway max (h ∷ hosts) p =
    let next = add gateway h p in
    let rest = add_hosts gateway max hosts next in if leb max (length next.out) then next else rest

-- e[i] == '/' for some i
abbrev pub has_slash : String → Bool
has_slash String.[] = false
has_slash (String.◌∷◌ c s) = code c == b'/' || has_slash s

module _ (lib : NetLib) (fuel : ℕ) where
  -- what one entry of the pool stands for: none when a CIDR's loop takes more than `fuel` rounds
  unfoldable pub entry_hosts : String → Option (Result (List String))
  entry_hosts e =
      if has_slash e
      then expand_cidr_hosts lib fuel e
      else elim (lib.parse_ip e) [ none ↦ some (err other) | some ip ↦ some (ok (e ∷ [])) ]

  -- The loop over the entries. A plain address goes through `add_hosts` too: there the test on the
  -- length is the one that the next round makes.
  unfoldable pub pool_loop : String → ℕ → List String → Pool → Option (Result Pool)
  pool_loop gateway max [] p = some (ok p)
  pool_loop gateway max (e ∷ entries) p =
      let rest = pool_loop gateway max entries in
      if leb max (length p.out) then some (ok p) else elim (entry_hosts e) [
        | none ↦ none
        | some (err x) ↦ some (err x)
        | some (ok hosts) ↦ rest (add_hosts gateway max hosts p)
      ]

  unfoldable pub expand_pool : List String → String → ℕ → Option (Result (List String))
  expand_pool entries gateway max = elim (pool_loop gateway max entries empty_pool) [
    | none ↦ none
    | some (err x) ↦ some (err x)
    | some (ok p) ↦ some (ok p.out)
  ]
