-- ===== src/Libvirt/Client/Documents.antt =====
-- The documents of internal/libvirt/libvirtconn.go. Of the standard library, Sprintf's %x and %d,
-- xml.EscapeText, xml.Unmarshal and strconv.Atoi are a parameter.
use kite_kvm.Libvirt.Client.{StateCodes}
use kite_kvm.Libvirt.{
  DomainState, SnapshotInfo, StorageVolSpec, state_paused, state_running, state_shutoff,
  state_unknown,
}
use Prim.Native.String.{◌++◌ as str_append}
use kite_kvm.Prelude.{
  pos, negsuc, zero, suc, String, Bool, List, Option, Result, [], codes, drop, err, if◌then◌else◌,
  none, not, ok, other, some, str_eq, take, ℕ, ℤ, ◌*◌, ◌==◌, ◌^◌, ◌||◌, ◌∷◌,
}

-- a <graphics> element: `listen_addresses` are those of its <listen> elements
pub record Graphics : Type 0 where
  pub kind : String
  pub port : String
  pub listen : String
  pub listen_addresses : List String

pub record FmtLib : Type 0 where
  pub hex : List ℕ → String
  pub itoa : ℕ → String
  pub escape_xml : String → String
  pub trim_space : String → String
  pub atoi : String → Option ℤ
  pub is_negative_float : ℕ → Bool
  pub float_to_uint64 : ℕ → ℕ
  pub read_graphics : String → Option (List Graphics)  -- the elements of /domain/devices
  pub read_snapshot : String → Option (String × ℤ)  -- the state and the time of creation

-- a text of parts
unfoldable pub join_texts : List String → String
join_texts [] = ""
join_texts (s ∷ parts) = str_append s (join_texts parts)

-- mapState, of the int32 as its 32 bits
unfoldable pub map_state : StateCodes → ℕ → DomainState
map_state codes n =
    if n == codes.running
    then state_running
    else if n == codes.paused
    then state_paused
    else if n == codes.shutoff || n == codes.shutdown || n == codes.crashed
    then state_shutoff
    else state_unknown

-- the request of AddDHCPHost
unfoldable pub lease_xml : String → String → String → String
unfolding join_texts
lease_xml mac name ip =
    join_texts ("<host mac='" ∷ mac ∷ "' name='" ∷ name ∷ "' ip='" ∷ ip ∷ "'/>" ∷ [])

-- that of RemoveDHCPHost
unfoldable pub old_lease_xml : String → String
unfolding join_texts
old_lease_xml mac = join_texts ("<host mac='" ∷ mac ∷ "'/>" ∷ [])

abbrev pub or_localhost : String → String
or_localhost host = if str_eq host "" then "127.0.0.1" else host

abbrev pub first_or_blank : List String → String
first_or_blank [] = ""
first_or_blank (a ∷ rest) = a

module _ (fmt : FmtLib) where
  -- formatUUID, of the 16 bytes
  unfoldable pub format_uuid : List ℕ → String
  unfolding join_texts
  format_uuid u =
      let part : ℕ → ℕ → String = λ from size. fmt.hex (take size (drop from u)) in
      join_texts
        (part 0 4 ∷ "-" ∷ part 4 2 ∷ "-" ∷ part 6 2 ∷ "-" ∷ part 8 2 ∷ "-" ∷ part 10 6 ∷ [])

  -- the part of buildVolumeXML for a backing file
  unfoldable pub backing_xml : StorageVolSpec → String
  unfolding join_texts
  backing_xml spec =
      let backing_fmt = if str_eq spec.backing_fmt "" then "qcow2" else spec.backing_fmt in
      if str_eq spec.backing_path ""
      then ""
      else join_texts (
          "<backingStore><path>" ∷ spec.backing_path ∷ "</path><format type='" ∷ backing_fmt
          ∷ "'/></backingStore>" ∷ [])

  -- buildVolumeXML
  unfoldable pub volume_xml : StorageVolSpec → String
  unfolding join_texts
  volume_xml spec = join_texts (
      "<volume type='file'>"
      ∷ "<name>"
      ∷ spec.name
      ∷ "</name>"
      ∷ "<capacity unit='bytes'>"
      ∷ fmt.itoa spec.capacity_bytes
      ∷ "</capacity>"
      ∷ "<target><format type='qcow2'/></target>"
      ∷ backing_xml spec
      ∷ "</volume>"
      ∷ [])

  -- buildSnapshotXML
  unfoldable pub snapshot_xml : String → String → String
  unfolding join_texts
  snapshot_xml name description =
      let described =
        if str_eq description ""
        then ""
        else join_texts ("<description>" ∷ fmt.escape_xml description ∷ "</description>" ∷ []) in
      join_texts (
        "<domainsnapshot>"
        ∷ "<name>"
        ∷ fmt.escape_xml name
        ∷ "</name>"
        ∷ described
        ∷ "</domainsnapshot>"
        ∷ [])

  -- time.Unix of seconds above 0, in nanoseconds; the zero time is 0
  abbrev pub time_of : ℤ → ℕ
  time_of (pos n) = n * 10 ^ 9
  time_of (negsuc n) = 0

  -- an entry of ListSnapshots, with parseSnapshotXML
  unfoldable pub snapshot_info : String → Bool → Result String → SnapshotInfo
  snapshot_info name current desc =
      let blank : SnapshotInfo = record {
        name = name;
        state = "";
        creation_time = 0;
        current = current;
      } in
      elim desc [
        | err e ↦ blank
        | ok text ↦ elim (fmt.read_snapshot text) [
          | none ↦ blank
          | some p ↦ record blank { state = p.0; creation_time = time_of p.1 }
        ]
      ]

  -- the port of a graphics element, if it is a number above 0
  abbrev pub positive_port : Option ℤ → Option ℕ
  positive_port none = none
  positive_port (some (pos zero)) = none
  positive_port (some (pos (suc n))) = some (suc n)
  positive_port (some (negsuc n)) = none

  -- the loop of parseVNCFromXML: the first VNC display decides
  unfoldable pub vnc_loop : List Graphics → Result (String × ℕ)
  vnc_loop [] = err other
  vnc_loop (g ∷ graphics) =
      let rest = vnc_loop graphics in
      let host = if str_eq g.listen "" then first_or_blank g.listen_addresses else g.listen in
      if not (str_eq g.kind "vnc")
      then rest
      else elim (positive_port (fmt.atoi (fmt.trim_space g.port))) [
        | none ↦ err other
        | some port ↦ ok (or_localhost host, port)
      ]

  -- parseVNCFromXML
  unfoldable pub parse_vnc : String → Result (String × ℕ)
  parse_vnc desc = elim (fmt.read_graphics desc) [
    | none ↦ err other
    | some graphics ↦ vnc_loop graphics
  ]
