-- ===== src/Libvirt/Client/Reports/Sums.antt =====
-- The byte counters of parseStats in internal/libvirt/libvirtconn.go as sums over the devices.
use kite_kvm.Libvirt.Client.Reports.Fields.{
  field_of-rd, field_of-rx, field_of-tx, field_of-wr, is_counter, is_rd_field, is_rx_field,
  is_tx_field, is_wr_field,
}
use kite_kvm.Libvirt.{DomainStats, zero_stats}
use kite_kvm.Libvirt.Client.Reports.{
  StatsField, add_u64, field_of, is_rd, is_rx, is_tx, is_wr, parse_stats, set_field, stats_loop,
  tp_uint64, is_allocation, is_balloon, is_capacity, is_cpu, is_other, is_rss, is_state,
}
use kite_kvm.Libvirt.Client.Documents.{FmtLib}
use kite_kvm.Libvirt.Client.{ParamValue, StateCodes, StatsRecord}
use kite_kvm.Prelude.{
  String, Bool, List, [], arith, if◌then◌else◌, ℕ, ◌%◌, ◌+◌, ◌<◌, ◌^◌, ◌∷◌, ◌≡◌, refl,
}

-- the values of the parameters whose names are wanted, added up
unfoldable pub sum_of : FmtLib → (String → Bool) → List (String × ParamValue) → ℕ
sum_of fmt wanted [] = 0
sum_of fmt wanted ((name, value) ∷ params) =
    let rest = sum_of fmt wanted params in if wanted name then tp_uint64 fmt value + rest else rest

module _ (fmt : FmtLib) (codes : StateCodes) where
  -- a counter that one kind of parameter adds to, and no other sets
  module _ (counter : DomainStats → ℕ) (wanted : String → Bool) (of_field : StatsField → Bool)
      (named : (name : String) → of_field (field_of name) ≡ wanted name)
      (step : (f : StatsField) (v : ℕ) (s : DomainStats)
        → counter (set_field codes f v s)
          ≡ (if of_field f then add_u64 (counter s) v else counter s)) where
    stats_loop-sum_of :
        (params : List (String × ParamValue)) (s : DomainStats)
        → counter s < 2 ^ 64
        → counter (stats_loop fmt codes params s) ≡ (counter s + sum_of fmt wanted params) % 2 ^ 64
    unfolding stats_loop sum_of
    stats_loop-sum_of [] s small = omega (arith, small)
    stats_loop-sum_of ((name, value) ∷ params) s small =
        let f = field_of name in
        let v = tp_uint64 fmt value in
        let next = set_field codes f v s in
        let moved = step f v s in
        let kind = named name in
        let fits : counter next < 2 ^ 64 = ground (arith, moved, small) in
        ground (arith, moved, kind, small, stats_loop-sum_of params next fits)

    from_zero :
        (params : List (String × ParamValue)) (s : DomainStats)
        → counter s ≡ 0
        → counter (stats_loop fmt codes params s) ≡ sum_of fmt wanted params % 2 ^ 64
    from_zero params s zero_first =
        omega (arith, zero_first, stats_loop-sum_of params s (omega (arith, zero_first)))

  -- What parseStats reports as received, sent, read and written are the sums, wrapped round at 2⁶⁴,
  -- of the values, as tpUint64 reads them, of the parameters whose names begin with `net.` and end
  -- with `.rx.bytes` or `.tx.bytes`, and begin with `block.` and end with `.rd.bytes` or `.wr.bytes`,
  -- whatever the order of the parameters and whatever stands between them.
  pub parse_stats-sum_of :
      (rec : StatsRecord)
      → let s = parse_stats fmt codes rec in
        (s.net_rx_bytes ≡ sum_of fmt (is_counter "net." ".rx.bytes") rec.params % 2 ^ 64)
        × (s.net_tx_bytes ≡ sum_of fmt (is_counter "net." ".tx.bytes") rec.params % 2 ^ 64)
        × (s.block_rd_bytes ≡ sum_of fmt (is_counter "block." ".rd.bytes") rec.params % 2 ^ 64)
        × (s.block_wr_bytes ≡ sum_of fmt (is_counter "block." ".wr.bytes") rec.params % 2 ^ 64)
  unfolding parse_stats set_field
  parse_stats-sum_of rec =
      let start : DomainStats = record zero_stats { name = rec.dom.name } in
      (
        from_zero (λ s. s.net_rx_bytes) (is_counter "net." ".rx.bytes") is_rx_field field_of-rx
            rx_step rec.params start refl,
        from_zero (λ s. s.net_tx_bytes) (is_counter "net." ".tx.bytes") is_tx_field field_of-tx
            tx_step rec.params start refl,
        from_zero (λ s. s.block_rd_bytes) (is_counter "block." ".rd.bytes") is_rd_field field_of-rd
            rd_step rec.params start refl,
        from_zero (λ s. s.block_wr_bytes) (is_counter "block." ".wr.bytes") is_wr_field field_of-wr
            wr_step rec.params start refl,
      )
    where
      rx_step :
          (f : StatsField) (v : ℕ) (s : DomainStats)
          → (set_field codes f v s).net_rx_bytes
            ≡ (if is_rx_field f then add_u64 s.net_rx_bytes v else s.net_rx_bytes)
      rx_step is_state v s = refl
      rx_step is_cpu v s = refl
      rx_step is_balloon v s = refl
      rx_step is_rss v s = refl
      rx_step is_rx v s = refl
      rx_step is_tx v s = refl
      rx_step is_rd v s = refl
      rx_step is_wr v s = refl
      rx_step is_allocation v s = refl
      rx_step is_capacity v s = refl
      rx_step is_other v s = refl

      tx_step :
          (f : StatsField) (v : ℕ) (s : DomainStats)
          → (set_field codes f v s).net_tx_bytes
            ≡ (if is_tx_field f then add_u64 s.net_tx_bytes v else s.net_tx_bytes)
      tx_step is_state v s = refl
      tx_step is_cpu v s = refl
      tx_step is_balloon v s = refl
      tx_step is_rss v s = refl
      tx_step is_rx v s = refl
      tx_step is_tx v s = refl
      tx_step is_rd v s = refl
      tx_step is_wr v s = refl
      tx_step is_allocation v s = refl
      tx_step is_capacity v s = refl
      tx_step is_other v s = refl

      rd_step :
          (f : StatsField) (v : ℕ) (s : DomainStats)
          → (set_field codes f v s).block_rd_bytes
            ≡ (if is_rd_field f then add_u64 s.block_rd_bytes v else s.block_rd_bytes)
      rd_step is_state v s = refl
      rd_step is_cpu v s = refl
      rd_step is_balloon v s = refl
      rd_step is_rss v s = refl
      rd_step is_rx v s = refl
      rd_step is_tx v s = refl
      rd_step is_rd v s = refl
      rd_step is_wr v s = refl
      rd_step is_allocation v s = refl
      rd_step is_capacity v s = refl
      rd_step is_other v s = refl

      wr_step :
          (f : StatsField) (v : ℕ) (s : DomainStats)
          → (set_field codes f v s).block_wr_bytes
            ≡ (if is_wr_field f then add_u64 s.block_wr_bytes v else s.block_wr_bytes)
      wr_step is_state v s = refl
      wr_step is_cpu v s = refl
      wr_step is_balloon v s = refl
      wr_step is_rss v s = refl
      wr_step is_rx v s = refl
      wr_step is_tx v s = refl
      wr_step is_rd v s = refl
      wr_step is_wr v s = refl
      wr_step is_allocation v s = refl
      wr_step is_capacity v s = refl
      wr_step is_other v s = refl
