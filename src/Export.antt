-- ===== src/Export.antt =====
-- internal/dnsengine/export.go: the export of query events. Exporter is the queue and its worker,
-- Syslog the RFC 5424 line; Fifo, Reading and Escaping are proofs.
pub mod Exporter
pub mod Syslog
pub mod Fifo
pub mod Reading
pub mod Escaping
