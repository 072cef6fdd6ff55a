-- ===== src/Header.antt =====
-- The RPL messages and options of model/rpl-header.cc, in their wire format.
pub mod Address
pub mod AddressVector
pub mod DaoAck
pub mod DroAck
pub mod PacketInfo
pub mod SourceRouting
pub mod Options
pub mod RouteDiscovery
pub mod Dro
pub mod Dio
pub mod Dao
mod Runs
