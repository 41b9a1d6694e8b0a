-- ===== src/Node.antt =====
-- The node service: pkg/iscsi/nodeserver.go
pub mod Host
pub mod Options
pub mod Contexts
pub mod Waits
pub mod Connectors
pub mod Requests
pub mod ShareOptions
pub mod Stage
pub mod Unstage
pub mod Publish
pub mod Query
pub mod Traces
