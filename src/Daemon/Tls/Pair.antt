-- ===== src/Daemon/Tls/Pair.antt =====
-- The acceptor and the connector that a start builds behind each other: crates/pmd/src/tls.rs.
