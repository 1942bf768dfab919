-- ===== src/Network/Pool/Expansion.antt =====
-- What `expandPool` returns: the hosts of the entries, each once, without the gateway, and up to
-- the given number.
use kite_kvm.Prelude.{
  Bool, List, Option, Result, String, [], arith, contains, err, false, inl, inr, leb, length, none,
  ok, refl, some, true, ℕ, ◌∷◌, ◌≡◌, ◌≤◌, ◌⊎◌, Bool-cases, ap, eq_iff, str_eq, ◌<◌, Distinct,
}
use kite_kvm.Network.Subnet.{NetLib}
use kite_kvm.Network.Pool.{Pool, add_hosts, entry_hosts, pool_loop, expand_pool, empty_pool}
use kite_kvm.Network.Pool.Candidates.{
  IsPool, add_hosts-IsPool, add_hosts-keeps, length-add_hosts, add_hosts_origin, add_hosts-holds,
  length-le-add_hosts,
}

module _ (lib : NetLib) (fuel : ℕ) where
  -- a round that succeeds stops, or adds the hosts of its entry and goes on
  pool_loop-cons :
      (gateway : String) (max : ℕ) (e : String) (entries : List String) (p q : Pool)
      → pool_loop lib fuel gateway max (e ∷ entries) p ≡ some (ok q)
      → ((leb max (length p.out) ≡ true) × (q ≡ p))
        ⊎ ((hosts : List String) × (leb max (length p.out) ≡ false)
            × (entry_hosts lib fuel e ≡ some (ok hosts))
            × (pool_loop lib fuel gateway max entries (add_hosts gateway max hosts p)
                ≡ some (ok q)))
  unfolding pool_loop
  pool_loop-cons gateway max e entries p q h =
      go (leb max (length p.out)) (entry_hosts lib fuel e) refl refl h
    where
      go :
          (full : Bool) (hosts : Option (Result (List String)))
          → leb max (length p.out) ≡ full
          → entry_hosts lib fuel e ≡ hosts
          → pool_loop lib fuel gateway max (e ∷ entries) p ≡ some (ok q)
          → ((leb max (length p.out) ≡ true) × (q ≡ p))
            ⊎ ((hosts : List String) × (leb max (length p.out) ≡ false)
                × (entry_hosts lib fuel e ≡ some (ok hosts))
                × (pool_loop lib fuel gateway max entries (add_hosts gateway max hosts p)
                    ≡ some (ok q)))
      go true hosts f g k = inl (f, ground (arith, f))
      go false none f g k = cc (f, g)
      go false (some (err x)) f g k = cc (f, g)
      go false (some (ok hosts)) f g k = inr (hosts, f, g, ground (arith, f, g))

  pool_loop-IsPool :
      (gateway : String) (max : ℕ) (entries : List String) (p q : Pool)
      → IsPool gateway p
      → length p.out ≤ max
      → pool_loop lib fuel gateway max entries p ≡ some (ok q)
      → IsPool gateway q × (length q.out ≤ max)
  unfolding pool_loop
  pool_loop-IsPool gateway max [] p q v h r = let same : q ≡ p = cc in rw same (v, h)
  pool_loop-IsPool gateway max (e ∷ entries) p q v h r =
      elim (pool_loop-cons gateway max e entries p q r) [
        | inl (full, same) ↦ rw same (v, h)
        | inr (hosts, more, found, rest) ↦
            pool_loop-IsPool gateway max entries (add_hosts gateway max hosts p) q
              (add_hosts-IsPool gateway max hosts p v)
              (length-add_hosts gateway max hosts p (ground (arith, more))) rest
      ]

  pool_loop-keeps :
      (x gateway : String) (max : ℕ) (entries : List String) (p q : Pool)
      → contains x p.out ≡ true
      → pool_loop lib fuel gateway max entries p ≡ some (ok q)
      → contains x q.out ≡ true
  unfolding pool_loop
  pool_loop-keeps x gateway max [] p q h r = let same : q ≡ p = cc in rw same h
  pool_loop-keeps x gateway max (e ∷ entries) p q h r =
      elim (pool_loop-cons gateway max e entries p q r) [
        | inl (full, same) ↦ rw same h
        | inr (hosts, more, found, rest) ↦
            pool_loop-keeps x gateway max entries (add_hosts gateway max hosts p) q
              (add_hosts-keeps x gateway max hosts p h) rest
      ]

  length-le-pool_loop :
      (gateway : String) (max : ℕ) (entries : List String) (p q : Pool)
      → pool_loop lib fuel gateway max entries p ≡ some (ok q)
      → length p.out ≤ length q.out
  unfolding pool_loop
  length-le-pool_loop gateway max [] p q r = let same : q ≡ p = cc in rw same (omega arith)
  length-le-pool_loop gateway max (e ∷ entries) p q r =
      elim (pool_loop-cons gateway max e entries p q r) [
        | inl (full, same) ↦ rw same (omega arith)
        | inr (hosts, more, found, rest) ↦ omega (
          arith,
          length-le-add_hosts gateway max hosts p,
          length-le-pool_loop gateway max entries (add_hosts gateway max hosts p) q rest,
        )
      ]

  pool_loop-holds :
      (x gateway : String) (max : ℕ) (e : String) (hosts entries : List String) (p q : Pool)
      → IsPool gateway p
      → contains e entries ≡ true
      → entry_hosts lib fuel e ≡ some (ok hosts)
      → contains x hosts ≡ true
      → str_eq x gateway ≡ false
      → pool_loop lib fuel gateway max entries p ≡ some (ok q)
      → length q.out < max
      → contains x q.out ≡ true
  unfolding contains
  pool_loop-holds x gateway max e hosts [] p q v m found among d r room = cc
  pool_loop-holds x gateway max e hosts (f ∷ entries) p q v m found among d r room =
      elim (pool_loop-cons gateway max f entries p q r) [
        | inl (full, same) ↦
            absurd (ground (arith, full, same, room, ap (λ (t : Pool). length t.out) same))
        | inr (others, more, these, rest) ↦
            let next = add_hosts-IsPool gateway max others p v in
            elim (Bool-cases (str_eq f e)) [
              | inl same ↦
                  let at : f ≡ e = (eq_iff f e).0 same in
                  let hosts_eq : others ≡ hosts = cc (these, found, ap (entry_hosts lib fuel) at) in
                  let grown =
                    length-le-pool_loop gateway max entries (add_hosts gateway max others p) q
                      rest in
                  pool_loop-keeps x gateway max entries (add_hosts gateway max others p) q
                    (add_hosts-holds x gateway max others p v (rw hosts_eq among) d (omega arith))
                    rest
              | inr differs ↦
                  pool_loop-holds x gateway max e hosts entries (add_hosts gateway max others p) q
                    next (ground (arith, m, differs)) found among d rest room
            ]
      ]

  -- what ends up in the pool is in the pool at the start, or is a host of an entry
  pool_loop_origin :
      (x gateway : String) (max : ℕ) (entries : List String) (p q : Pool)
      → pool_loop lib fuel gateway max entries p ≡ some (ok q)
      → contains x q.out ≡ true
      → (contains x p.out ≡ true)
        ⊎ ((e : String) × (hosts : List String) × (contains e entries ≡ true)
            × (entry_hosts lib fuel e ≡ some (ok hosts))
            × (contains x hosts ≡ true))
  unfolding pool_loop contains
  pool_loop_origin x gateway max [] p q r m = let same : q ≡ p = cc in inl (rw same at m)
  pool_loop_origin x gateway max (f ∷ entries) p q r m =
      elim (pool_loop-cons gateway max f entries p q r) [
        | inl (full, same) ↦ inl (rw same at m)
        | inr (hosts, more, these, rest) ↦
            elim (pool_loop_origin x gateway max entries (add_hosts gateway max hosts p) q rest m) [
              | inl held ↦ elim (add_hosts_origin x gateway max hosts p held) [
                | inl before ↦ inl before
                | inr among ↦ inr (f, hosts, ground (arith, eq_iff f f), these, among)
              ]
              | inr (e, others, later, found, among) ↦
                  inr (e, others, ground (arith, later), found, among)
            ]
      ]

  expand_pool-pool_loop :
      (entries ips : List String) (gateway : String) (max : ℕ)
      → expand_pool lib fuel entries gateway max ≡ some (ok ips)
      → (q : Pool) × (pool_loop lib fuel gateway max entries empty_pool ≡ some (ok q))
        × (q.out ≡ ips)
  unfolding expand_pool
  expand_pool-pool_loop entries ips gateway max h =
      go (pool_loop lib fuel gateway max entries empty_pool) refl
    where
      go :
          (r : Option (Result Pool))
          → pool_loop lib fuel gateway max entries empty_pool ≡ r
          → (q : Pool) × (pool_loop lib fuel gateway max entries empty_pool ≡ some (ok q))
            × (q.out ≡ ips)
      go none e = cc (e, h)
      go (some (err x)) e = cc (e, h)
      go (some (ok q)) e = (q, e, ground (arith, e, h))

  empty-IsPool : (gateway : String) → IsPool gateway empty_pool
  unfolding contains
  empty-IsPool gateway = record { distinct = tt; seen_out = λ x. refl; no_gateway = refl }

  -- An expanded pool lists no address twice and not the gateway's, is of at most `max` addresses,
  -- and lists only hosts of its entries.
  pub expand_pool_sound :
      (entries ips : List String) (gateway : String) (max : ℕ)
      → expand_pool lib fuel entries gateway max ≡ some (ok ips)
      → Distinct ips
        × (contains gateway ips ≡ false)
        × (length ips ≤ max)
        × ((x : String)
            → contains x ips ≡ true
            → (e : String) × (hosts : List String) × (contains e entries ≡ true)
              × (entry_hosts lib fuel e ≡ some (ok hosts))
              × (contains x hosts ≡ true))
  unfolding contains
  expand_pool_sound entries ips gateway max h =
      let (q, r, same) = expand_pool-pool_loop entries ips gateway max h in
      let (v, fits) =
        pool_loop-IsPool gateway max entries empty_pool q (empty-IsPool gateway) (omega arith) r in
      (
        rw same at v.distinct,
        rw same at v.no_gateway,
        rw same at fits,
        λ x m. elim (pool_loop_origin x gateway max entries empty_pool q r (rw same m)) [
          | inl nothing ↦ cc (nothing)
          | inr found ↦ found
        ],
      )

  -- If an expanded pool is shorter than `max`, it lists every host of every entry but the
  -- gateway's.
  pub expand_pool_complete :
      (entries ips hosts : List String) (gateway x e : String) (max : ℕ)
      → expand_pool lib fuel entries gateway max ≡ some (ok ips)
      → length ips < max
      → contains e entries ≡ true
      → entry_hosts lib fuel e ≡ some (ok hosts)
      → contains x hosts ≡ true
      → str_eq x gateway ≡ false
      → contains x ips ≡ true
  expand_pool_complete entries ips hosts gateway x e max h room m found among d =
      let (q, r, same) = expand_pool-pool_loop entries ips gateway max h in
      rw same at (
        pool_loop-holds x gateway max e hosts entries empty_pool q (empty-IsPool gateway) m found
          among d r (rw same room))
