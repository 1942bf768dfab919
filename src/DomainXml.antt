-- ===== src/DomainXml.antt =====
-- internal/domainxml/domainxml.go: the documents that are handed to libvirt. The types of
-- libvirt.org/go/libvirtxml keep the fields that the code varies; `Marshal` is a parameter.
use kite_kvm.Prelude.{
  Bool, List, Option, Result, String, [], err, false, if◌then◌else◌, ltb, none, not, other, some,
  str_eq, true, ℕ, ◌&&◌, ◌*◌, ◌∷◌,
}
use kite_kvm.Model.{NetworkMode, is_bridge}

pub record NetworkAttachment : Type 0 where
  pub mode : NetworkMode
  pub source : String
  pub vlan : ℕ

pub record Spec : Type 0 where
  pub name : String
  pub uuid : String
  pub vcpus : ℕ
  pub memory_mb : ℕ
  pub disk_path : String
  pub seed_path : String
  pub mac : String
  pub network : NetworkAttachment
  pub bandwidth_mbps : ℕ
  pub link_down : Bool
  pub vnc_listen : String

-- libvirtxml.DomainInterface: `bridge` and `network` are the two sources
pub record Interface : Type 0 where
  pub mac : String
  pub bridge : Option String
  pub network : Option String
  pub vlan : Option ℕ
  pub bandwidth : Option ℕ
  pub link : Option String

-- libvirtxml.DomainDisk
pub record DiskDevice : Type 0 where
  pub device : String
  pub driver : String
  pub file : String
  pub target : String
  pub bus : String
  pub read_only : Bool

-- libvirtxml.Domain
pub record Domain : Type 0 where
  pub name : String
  pub uuid : String
  pub memory_mib : ℕ
  pub vcpus : ℕ
  pub disks : List DiskDevice
  pub interface : Interface
  pub vnc_listen : String

pub record Marshal : Type 0 where
  pub domain : Domain → Result String
  pub interface : Interface → Result String

unfoldable pub build_disks : Spec → List DiskDevice
build_disks s =
    let root : DiskDevice = record {
      device = "disk";
      driver = "qcow2";
      file = s.disk_path;
      target = "vda";
      bus = "virtio";
      read_only = false;
    } in
    let seed : DiskDevice = record {
      device = "cdrom";
      driver = "raw";
      file = s.seed_path;
      target = "sda";
      bus = "sata";
      read_only = true;
    } in
    if str_eq s.seed_path "" then root ∷ [] else root ∷ seed ∷ []

unfoldable pub build_interface : Spec → Interface
build_interface s =
    let bridged = is_bridge s.network.mode in
    record {
      mac = s.mac;
      bridge = if bridged then some s.network.source else none;
      network = if bridged then none else some s.network.source;
      vlan = if bridged && ltb 0 s.network.vlan then some s.network.vlan else none;
      bandwidth = if ltb 0 s.bandwidth_mbps then some (s.bandwidth_mbps * 125) else none;
      link = if s.link_down then some "down" else none;
    }

-- The mode is one of the two by its type.
unfoldable pub validate_interface : Spec → Bool
validate_interface s = not (str_eq s.mac "") && not (str_eq s.network.source "")

unfoldable pub validate : Spec → Bool
unfolding validate_interface
validate s =
    not (str_eq s.name "")
    && ltb 0 s.vcpus
    && ltb 0 s.memory_mb
    && not (str_eq s.disk_path "")
    && validate_interface s

module _ (m : Marshal) where
  unfoldable pub render : Spec → Result String
  render s =
      if validate s
      then m.domain (record {
        name = s.name;
        uuid = s.uuid;
        memory_mib = s.memory_mb;
        vcpus = s.vcpus;
        disks = build_disks s;
        interface = build_interface s;
        vnc_listen = if str_eq s.vnc_listen "" then "127.0.0.1" else s.vnc_listen;
      })
      else err other

  unfoldable pub render_interface : Spec → Result String
  render_interface s = if validate_interface s then m.interface (build_interface s) else err other
