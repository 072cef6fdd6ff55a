-- ===== src/DataPlane.antt =====
-- What a router does with the packets it receives: model/rpl-packet-info-option.cc and
-- model/rpl-source-routing-extension.cc.
pub mod SourceRouteExtension
pub mod PacketInfoOption
pub mod HopByHopHeader
mod Runs
