-- ===== src/Network.antt =====
-- internal/network: addresses, the host lists of a subnet or of a pool, and the strategies.
pub mod Address
pub mod Subnet
pub mod Pool
pub mod Strategy
