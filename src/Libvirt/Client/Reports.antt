-- ===== src/Libvirt/Client/Reports.antt =====
-- The reports of internal/libvirt/libvirtconn.go: statistics and the capacity of the host, and the
-- Conn that all its calls make up.
pub mod Fields
pub mod Sums
use kite_kvm.Prelude.Texts.{has_prefix, has_suffix}
use kite_kvm.Libvirt.Client.Storage.{create_volume, delete_volume, resize_volume}
use kite_kvm.Libvirt.Client.Calls.{
  add_dhcp_host, create_snapshot, define_domain, delete_snapshot, destroy_domain, domain_state,
  domain_vnc_address, domain_xml, list_domains, list_snapshots, reboot_domain, remove_dhcp_host,
  resume_domain, revert_snapshot, shutdown_domain, start_domain, suspend_domain, undefine_domain,
  update_interface,
}
use kite_kvm.Libvirt.Client.Documents.{FmtLib, join_texts, map_state}
use kite_kvm.Libvirt.Client.{
  Client, ParamValue, Rpc, StateCodes, StatsRecord, ensure, float_bits, other_value, ping, rpc,
  signed, unsigned,
}
use kite_kvm.Libvirt.{Conn, DomainStats, HostInfo, SeedFile, zero_stats}
use kite_kvm.Prelude.Effects.{Exec, attempt, pure, ◌>>=◌, ◌>>◌}
use kite_kvm.Prelude.{
  pos, negsuc, String, Bool, List, Result, [], codes, err, false, if◌then◌else◌, map, none, ok,
  some, str_eq, true, ℕ, ◌%◌, ◌&&◌, ◌*◌, ◌+◌, ◌/◌, ◌^◌, ◌||◌, ◌∷◌,
}

-- the fields of a domain's statistics that parseStats reads, and `is_other` for the rest
pub data StatsField : Type 0 where
  is_state is_cpu is_balloon is_rss is_rx is_tx is_rd is_wr is_allocation is_capacity : StatsField
  is_other : StatsField

-- the cases of the switch, in their order
unfoldable pub field_of : String → StatsField
field_of name =
    let net = has_prefix name "net." in
    let disk = has_prefix name "block." in
    if str_eq name "state.state"
    then is_state
    else if str_eq name "cpu.time"
    then is_cpu
    else if str_eq name "balloon.current"
    then is_balloon
    else if str_eq name "balloon.rss"
    then is_rss
    else if net && has_suffix name ".rx.bytes"
    then is_rx
    else if net && has_suffix name ".tx.bytes"
    then is_tx
    else if disk && has_suffix name ".rd.bytes"
    then is_rd
    else if disk && has_suffix name ".wr.bytes"
    then is_wr
    else if disk && has_suffix name ".allocation"
    then is_allocation
    else if disk && has_suffix name ".capacity"
    then is_capacity
    else is_other

-- s.NetRxBytes += v, on uint64
abbrev pub add_u64 : ℕ → ℕ → ℕ
add_u64 a b = (a + b) % 2 ^ 64

-- one round of the loop of parseStats
unfoldable pub set_field : StateCodes → StatsField → ℕ → DomainStats → DomainStats
unfolding map_state
set_field codes is_state v s = record s { state = map_state codes (v % 2 ^ 32) }
set_field codes is_cpu v s = record s { cpu_time_ns = v }
set_field codes is_balloon v s = record s { mem_balloon_kib = v }
set_field codes is_rss v s = record s { mem_rss_kib = v }
set_field codes is_rx v s = record s { net_rx_bytes = add_u64 s.net_rx_bytes v }
set_field codes is_tx v s = record s { net_tx_bytes = add_u64 s.net_tx_bytes v }
set_field codes is_rd v s = record s { block_rd_bytes = add_u64 s.block_rd_bytes v }
set_field codes is_wr v s = record s { block_wr_bytes = add_u64 s.block_wr_bytes v }
set_field codes is_allocation v s = record s { block_allocation = add_u64 s.block_allocation v }
set_field codes is_capacity v s = record s { block_capacity = add_u64 s.block_capacity v }
set_field codes is_other v s = s

module _ (fmt : FmtLib) where
  -- tpUint64
  unfoldable pub tp_uint64 : ParamValue → ℕ
  tp_uint64 (signed (pos n)) = n
  tp_uint64 (signed (negsuc n)) = 0
  tp_uint64 (unsigned n) = n
  tp_uint64 (float_bits n) = if fmt.is_negative_float n then 0 else fmt.float_to_uint64 n
  tp_uint64 other_value = 0

  unfoldable pub stats_loop : StateCodes → List (String × ParamValue) → DomainStats → DomainStats
  stats_loop codes [] s = s
  stats_loop codes ((name, value) ∷ params) s =
      stats_loop codes params (set_field codes (field_of name) (tp_uint64 value) s)

  -- parseStats
  unfoldable pub parse_stats : StateCodes → StatsRecord → DomainStats
  parse_stats codes rec = stats_loop codes rec.params (record zero_stats { name = rec.dom.name })

  -- formatLibvirtVersion
  unfoldable pub format_version : ℕ → String
  unfolding join_texts
  format_version v =
      join_texts
        (fmt.itoa (v / 10 ^ 6) ∷ "." ∷ fmt.itoa (v / 1000 % 1000) ∷ "." ∷ fmt.itoa (v % 1000) ∷ [])

abbrev pub or_blank : Result String → String
or_blank (ok s) = s
or_blank (err e) = ""

abbrev pub or_zero : Result ℕ → ℕ
or_zero (ok n) = n
or_zero (err e) = 0

module _ {L Pool Vol Net Snap : Type 0} (lib : Rpc L Pool Vol Net Snap) (fmt : FmtLib)
    (uri : String) where
  unfoldable pub all_domain_stats : Exec (Client L) (List DomainStats)
  all_domain_stats = do
    ensure lib uri
    records ← rpc lib.get_all_domain_stats
    pure (map (parse_stats fmt lib.codes) records)

  -- the capacity of the pool and what is available of it, where both calls succeed
  unfoldable pub pool_space : String → Exec (Client L) (ℕ × ℕ)
  pool_space pool = do p ← rpc (lib.pool_lookup_by_name pool); rpc (lib.pool_get_info p)

  abbrev pub space_or_zero : Result (ℕ × ℕ) → ℕ × ℕ
  space_or_zero (ok space) = space
  space_or_zero (err e) = (0, 0)

  -- HostInfo: what cannot be read but the node's memory and CPUs is left at its zero value
  unfoldable pub host_info : String → Exec (Client L) HostInfo
  host_info pool = do
    ensure lib uri
    node ← rpc lib.node_get_info
    free ← attempt (rpc lib.node_get_free_memory)
    name ← attempt (rpc lib.connect_get_hostname)
    version ← attempt (rpc lib.get_lib_version)
    space ← attempt (pool_space pool)
    pure (record {
      hostname = or_blank name;
      cpus = node.1;
      memory_total_bytes = node.0 * 1024 % 2 ^ 64;
      memory_free_bytes = or_zero free;
      storage_bytes = (space_or_zero space).0;
      storage_free_bytes = (space_or_zero space).1;
      libvirt_version = elim version [ ok v ↦ format_version fmt v | err e ↦ "" ];
    })

  -- the Conn of newLibvirtConn; the seed image and os.Remove act on files beside it
  unfoldable pub client_conn :
      (String → List SeedFile → Exec (Client L) (Unit {0}))
      → (String → Exec (Client L) (Unit {0}))
      → Conn (Client L)
  client_conn build_seed remove = record {
    ping = ping lib uri;
    host_info = host_info;
    define_domain = define_domain lib fmt uri;
    start_domain = start_domain lib fmt uri;
    shutdown_domain = shutdown_domain lib fmt uri;
    reboot_domain = reboot_domain lib fmt uri;
    destroy_domain = destroy_domain lib fmt uri;
    suspend_domain = suspend_domain lib fmt uri;
    resume_domain = resume_domain lib fmt uri;
    undefine_domain = undefine_domain lib fmt uri;
    update_interface = update_interface lib fmt uri;
    domain_state = domain_state lib fmt uri;
    list_domains = list_domains lib fmt uri;
    domain_xml = domain_xml lib fmt uri;
    domain_vnc_address = domain_vnc_address lib fmt uri;
    create_volume = create_volume lib fmt uri;
    delete_volume = delete_volume lib fmt uri;
    resize_volume = resize_volume lib fmt uri;
    all_domain_stats = all_domain_stats;
    add_dhcp_host = add_dhcp_host lib fmt uri;
    remove_dhcp_host = remove_dhcp_host lib fmt uri;
    create_snapshot = create_snapshot lib fmt uri;
    list_snapshots = list_snapshots lib fmt uri;
    delete_snapshot = delete_snapshot lib fmt uri;
    revert_snapshot = revert_snapshot lib fmt uri;
    build_seed_iso = build_seed;
    remove_file = remove;
  }
