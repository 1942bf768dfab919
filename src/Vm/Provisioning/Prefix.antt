-- ===== src/Vm/Provisioning/Prefix.antt =====
-- The two functions prefixFromNetmask, of internal/network/bridge.go and of internal/vm/suspend.go.
use kite_kvm.Network.Strategy.{mask_prefix, prefix_from_netmask, slash_prefix}
use kite_kvm.Vm.Provisioning.{stored_prefix}
use kite_kvm.Vm.{Env}
use kite_kvm.Prelude.{
  String, Bool-cases, ap, arith, eq_iff, false, inl, inr, none, some, str_eq, ◌≡◌,
}

nonempty : (nm bits : String) → slash_prefix nm ≡ some bits → str_eq nm "" ≡ false
unfolding slash_prefix
nonempty nm bits h = elim (Bool-cases (str_eq nm "")) [
  | inl blank ↦
      let empty : nm ≡ "" = (eq_iff nm "").0 blank in
      let gone : slash_prefix nm ≡ none = ap slash_prefix empty in cc (h, gone)
  | inr full ↦ full
]

module _ {H : Type 0} (env : Env H) where
  -- A netmask that is written as a slash and a prefix length, without spaces around it, and that
  -- does not parse as an address, gives that prefix length when the VM is created, and 32 when it
  -- is seeded again.
  pub stored_prefix_diverges :
      (nm bits : String)
      → env.net.trim_space nm ≡ nm
      → slash_prefix nm ≡ some bits
      → env.net.parse_ip nm ≡ none
      → (prefix_from_netmask env.net nm ≡ bits) × (stored_prefix env nm ≡ "32")
  unfolding prefix_from_netmask stored_prefix mask_prefix
  stored_prefix_diverges nm bits trimmed slash unparsed =
      let full = nonempty nm bits slash in
      (ground (arith, trimmed, slash, full), ground (arith, full, unparsed))

  -- A netmask without spaces around it and without a leading slash gives the same prefix when the
  -- VM is created and when it is seeded again.
  pub stored_prefix-agrees :
      (nm : String)
      → env.net.trim_space nm ≡ nm
      → slash_prefix nm ≡ none
      → stored_prefix env nm ≡ prefix_from_netmask env.net nm
  unfolding prefix_from_netmask stored_prefix
  stored_prefix-agrees nm trimmed plain = ground (arith, trimmed, plain)
