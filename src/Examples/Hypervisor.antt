-- ===== src/Examples/Hypervisor.antt =====
-- Calls of the fake hypervisor.
use kite_kvm.Libvirt.Client.Reports.Fields.{is_counter}
use kite_kvm.Libvirt.Client.Reports.Sums.{parse_stats-sum_of, sum_of}
use kite_kvm.Libvirt.Client.Reports.{field_of, parse_stats, set_field, stats_loop, tp_uint64}
use kite_kvm.Libvirt.Client.Documents.{FmtLib, map_state, vnc_loop}
use kite_kvm.Libvirt.Client.{StateCodes, StatsRecord, signed, unsigned}
use kite_kvm.Libvirt.Fake.PowerStates.{
  DomainCall, calls, calls-refine, conn, define, power_map, power_step, power_steps, start,
}
use kite_kvm.Libvirt.Fake.{Fake, domain_name_from_xml, new_fake}
use kite_kvm.Prelude.Texts.{behind, has_suffix, split_at_first}
use kite_kvm.Libvirt.{SeedFile, state_running}
use kite_kvm.Prelude.Effects.{Exec}
use kite_kvm.Prelude.{
  pos, String, List, [], domain_not_found, err, none, ok, refl, some, ◌∷◌, ◌≡◌, false, ◌%◌, ◌-◌,
  ◌^◌,
}

abbrev join : String → String → String
join a b = b

abbrev build : String → List SeedFile → Exec Fake (Unit {0})
build path files f = (ok tt, f)

abbrev remove : String → Exec Fake (Unit {0})
remove path f = (ok tt, f)

abbrev history : List DomainCall
history = start "kvm-1" ∷ define "<domain><name>kvm-1</name></domain>" ∷ start "kvm-1" ∷ []

calls-refine_example :
    let after = (calls join build remove history (new_fake 5)).1 in
    ((calls join build remove history (new_fake 5)).0
      ≡ (power_steps history (power_map (new_fake 5))).0)
    × (((conn join build remove).domain_state "kvm-1" after).0
        ≡ elim ((power_steps history (power_map (new_fake 5))).1 "kvm-1") [
          | none ↦ err domain_not_found
          | some st ↦ ok st
        ])
calls-refine_example = calls-refine join build remove history (new_fake 5) "kvm-1"

-- the first start finds no domain, and in the end it runs
answered : (power_steps history (λ name. none)).0 ≡ err domain_not_found ∷ ok tt ∷ ok tt ∷ []
unfolding power_steps power_step domain_name_from_xml split_at_first behind
answered = refl

runs : (power_steps history (λ name. none)).1 "kvm-1" ≡ some state_running
unfolding power_steps power_step domain_name_from_xml split_at_first behind
runs = refl

abbrev fmt : FmtLib
fmt = record {
  hex = λ bytes. "00";
  itoa = λ n. "5";
  escape_xml = λ s. s;
  trim_space = λ s. s;
  atoi = λ s. some (pos 5901);
  is_negative_float = λ bits. false;
  float_to_uint64 = λ bits. bits;
  read_graphics = λ s. none;
  read_snapshot = λ s. none;
}

abbrev state_codes : StateCodes
state_codes = record { running = 1; paused = 3; shutoff = 5; shutdown = 4; crashed = 6 }

-- two devices
abbrev reported : StatsRecord
reported = record {
  dom = record { name = "kvm-1"; uuid = [] };
  params =
      ("net.0.rx.bytes", unsigned 10)
      ∷ ("state.state", signed (pos 1))
      ∷ ("net.1.rx.bytes", unsigned (2 ^ 64 - 3))
      ∷ [];
}

parse_stats-sum_of_example :
    let s = parse_stats fmt state_codes reported in
    (s.net_rx_bytes ≡ sum_of fmt (is_counter "net." ".rx.bytes") reported.params % 2 ^ 64)
    × (s.net_tx_bytes ≡ sum_of fmt (is_counter "net." ".tx.bytes") reported.params % 2 ^ 64)
    × (s.block_rd_bytes ≡ sum_of fmt (is_counter "block." ".rd.bytes") reported.params % 2 ^ 64)
    × (s.block_wr_bytes ≡ sum_of fmt (is_counter "block." ".wr.bytes") reported.params % 2 ^ 64)
parse_stats-sum_of_example = parse_stats-sum_of fmt state_codes reported

-- the sum wraps round
wrapped :
    let s = parse_stats fmt state_codes reported in (s.net_rx_bytes ≡ 7) × (s.state ≡ state_running)
unfolding parse_stats stats_loop set_field field_of tp_uint64 has_suffix behind map_state
wrapped = (refl, refl)

-- the first VNC display decides, and one without an address listens on the local host
displayed :
    vnc_loop fmt (record { kind = "vnc"; port = "5901"; listen = ""; listen_addresses = [] } ∷ [])
    ≡ ok ("127.0.0.1", 5901)
unfolding vnc_loop
displayed = refl
