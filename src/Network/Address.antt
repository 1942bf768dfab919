-- ===== src/Network/Address.antt =====
-- IPv4 addresses as numbers: `ip4ToU32` and `u32ToIP4` of internal/network/network.go.
use kite_kvm.Prelude.{ℕ, ◌+◌, ◌*◌, ◌/◌, ◌%◌, ◌^◌, ◌<◌, ◌≡◌, arith}

-- net.IP after To4: four bytes
pub record Ip4 : Type 0 where
  pub b0 : ℕ
  pub b1 : ℕ
  pub b2 : ℕ
  pub b3 : ℕ

abbrev pub u32 : ℕ → ℕ
u32 n = n % 2 ^ 32

-- the shifted bytes do not overlap, so `|` is `+`
unfoldable pub ip4_to_u32 : Ip4 → ℕ
ip4_to_u32 ip = ip.b0 * 2 ^ 24 + ip.b1 * 2 ^ 16 + ip.b2 * 2 ^ 8 + ip.b3

unfoldable pub u32_to_ip4 : ℕ → Ip4
u32_to_ip4 u = record {
  b0 = u / 2 ^ 24 % 256;
  b1 = u / 2 ^ 16 % 256;
  b2 = u / 2 ^ 8 % 256;
  b3 = u % 256;
}

-- each part of the address is a byte
pub record IsIp4 (ip : Ip4) : Type 0 where
  pub byte0 : ip.b0 < 256
  pub byte1 : ip.b1 < 256
  pub byte2 : ip.b2 < 256
  pub byte3 : ip.b3 < 256

-- Every 32-bit number is the number of the address that it is turned into.
pub ip4_to_u32-u32_to_ip4 : (u : ℕ) → u < 2 ^ 32 → ip4_to_u32 (u32_to_ip4 u) ≡ u
unfolding ip4_to_u32 u32_to_ip4
ip4_to_u32-u32_to_ip4 u h = omega arith

-- Every address is recovered from its number, which fits 32 bits.
pub u32_to_ip4-ip4_to_u32 :
    (ip : Ip4) → IsIp4 ip → (u32_to_ip4 (ip4_to_u32 ip) ≡ ip) × (ip4_to_u32 ip < 2 ^ 32)
unfolding ip4_to_u32 u32_to_ip4
u32_to_ip4-ip4_to_u32 ip h = (ground arith, omega arith)
