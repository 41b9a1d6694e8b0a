-- ===== src/Kubernetes.antt =====
-- pkg/iscsi/internal_kubernetes.go: the driver's own provisioner and attacher
pub mod Objects
pub mod Cluster
pub mod Strings
pub mod Secrets
pub mod Capabilities
pub mod Claims
pub mod Events
pub mod Provisioner
pub mod Attacher
pub mod Traces
