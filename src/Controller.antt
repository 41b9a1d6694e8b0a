-- ===== src/Controller.antt =====
-- pkg/iscsi/controllerserver.go: the CSI controller service
pub mod Params
pub mod Paths
pub mod Nfs
pub mod Smb
pub mod Chap
pub mod Ids
pub mod Messages
pub mod Create
pub mod Delete
pub mod Publish
pub mod Snapshots
pub mod Query
