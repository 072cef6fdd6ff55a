-- ===== src/Routing/HandleDio/Refusing/Limits.antt =====
-- The RankLimit of AODV-RPL and the MaxRank of P2P-RPL.
