-- ===== src/Lib.antt =====
-- The CSI driver for Windows storage servers (pkg/iscsi): what its controller and its node service
-- make of the requests of the Container Storage Interface, its own provisioner and attacher, the calls
-- by which the controller works on a Windows host, those by which the node service works on the
-- machine where it runs, and the iSCSI initiator library (pkg/iscsilib) that it connects volumes with.
--
-- The program. A driver process (pkg/iscsi/driver.go) answers the requests of an orchestrator. On the
-- controller side, each request names a volume by an ID, a URI (pkg/iscsi/volumeid.go) or the older
-- JSON form, or carries the parameters of a storage class. A handler of pkg/iscsi/controllerserver.go
-- checks these and works through calls of the interface Backend, which a PowerShell client of the
-- Windows host implements. The node service (pkg/iscsi/nodeserver.go) connects the volumes of a machine
-- and mounts them: NodeStageVolume connects and mounts at a staging path, NodePublishVolume binds that
-- to the path of a container, and NodeUnpublishVolume and NodeUnstageVolume take both back. It learns
-- portal, IQN and LUN from the publish context that ControllerPublishVolume answers with.
--
-- The files.
-- - Prelude passes on the names of the libraries and adds Boolean tests, integers (Prelude/Int),
--   association lists for maps (Prelude/Lists) and results (Prelude/Results), (value, error) in Go.
-- - Text, Strconv, Net and Filepath are the functions of the Go packages strings, unicode, strconv, net
--   and path/filepath that the driver calls.
-- - Exec is what all handlers are written in: a handler makes calls to a world with a state of its own
--   and returns a value or a gRPC code; the calls that it made stay in the World in their order, also if
--   it fails. Exec/Trace, Exec/Order and Exec/Success are rules for what a handler calls, for the order
--   of its calls, and for handlers that succeed.
-- - VolumeId is pkg/iscsi/volumeid.go: Scheme has Protocol and ParseProtocolFromVolumeID, Segments the
--   helpers on paths and hosts, Decode DecodeVolumeID and ValidateVolumeID, Encode EncodeVolumeID,
--   Selector BackendSelector. Complete and Decode/Agreement hold what is proved of them.
-- - Backend is the interface Backend of pkg/iscsi/driver.go with its structs: one constructor of Call
--   for each method. A backend has a state of its own and answers a call with a result or an error.
--   Backend/Exec runs handlers over it. Its children Trace, Keeps and Plan are rules for what a handler
--   calls and for lists of calls.
-- - Election has LeaderElectionConfig (pkg/iscsi/driver.go) and withDefaults
--   (pkg/iscsi/leader_election.go); the variables POD_NAMESPACE and POD_NAME and the name of the host
--   are a record.
-- - Driver is the struct driver with its constructors (pkg/iscsi/driver.go); Driver/Modes compares the
--   modes that it advertises with those that the controller accepts.
-- - Controller is pkg/iscsi/controllerserver.go. Params, Paths, Nfs, Smb and Chap read and check
--   parameters and secrets; Ids has the identifiers and volume contexts, Messages the requests and
--   responses. Create (with Create/Iscsi and Create/Shares), Delete, Publish, Snapshots and Query are
--   the handlers. A definition has the name of its function in lower case with underscores:
--   create_volume for CreateVolume. A large function is cut at its branches, and the checks that it
--   makes before its first call are a function of their own (Create/Iscsi/Plan, Create/Shares/Plan).
--   The NFS and the SMB functions that differ only in their calls are one definition over
--   ShareOptions. The children of these modules hold what is proved of them.
-- - Iscsilib is pkg/iscsilib: the structs that the node service passes on and keeps in files, and
--   below it Commands (the calls of the machine), Admin (iscsiadm.go), Sessions (the list of
--   sessions), Multipath (multipath.go and the tests of devices), Disconnect and Connect (iscsi.go). A
--   panic is a failure, which is passed over where the code passes over an error, and a command that prints something also when it fails has a result with both.
--   What Connect changes in its connector is a part of its result.
-- - Node is pkg/iscsi/nodeserver.go. Host has the calls that the service makes: mounter, file system,
--   commands, clock, and the functions of pkg/iscsilib. Options are the mount options and the mounting,
--   Contexts the readers of volume and publish contexts, Waits the loops that wait for a path or a file
--   system, Connectors the files of connectors, Requests the requests and parseStage and parsePublish.
--   ShareOptions, Stage, Unstage, Publish and Query are the handlers, cut at their branches as those of
--   the controller. Traces has rules for the calls, and the children hold what is proved.
-- - Kubernetes is pkg/iscsi/internal_kubernetes.go, the provisioner and the attacher that a controller
--   runs within its process. Objects are the objects of Kubernetes, Cluster the calls of the API
--   server and of the cached lists; a request to the controller service is made in the same process
--   (on_backend), so the calls of both stand in one trace. Events are the keys of the queues, Strings,
--   Secrets, Capabilities and Claims what is computed for a claim, Provisioner and Attacher the
--   reconcilers. An error that carries no gRPC code is `unknown`.
-- - Examples applies the theorems to concrete requests and a concrete backend.
--
-- Parameters. Code that is not in the repository is an argument: net/url (UrlPackage), the JSON and
-- base64 of the older identifiers (IdCodec), the backend with the host behind it (Backend), the
-- machine of a node (Host, and Machine for pkg/iscsilib), the API server (Cluster), the keys of
-- client-go (CacheKeys), and the decoding of a connector from JSON. Of the Host one thing is assumed
-- where waits are shown to end, that a sleep moves the clock on by its duration and that no call sets
-- it back (HasClock); of the keys, where they are read back, that they split into what they were made
-- of (SplitsKeys). Nothing is assumed of the others.
--
-- Bounds. Strings are lists of Unicode code points, and len counts their bytes in UTF-8. strings.ToLower
-- and strings.EqualFold are exact for ASCII letters, which the words and identifiers that they are
-- compared with consist of. Go's int is an integer in the range of 64 bits where it is parsed; int32 is
-- reduced explicitly where the code converts to it. All functions are structural; the two that run on
-- fuel, the digits of a number and the groups of an IPv6 address, get as much as a number has units and
-- an address has groups. A wait gets two rounds more than its timeout has delays, which is enough
-- (Node/Waits/Ends); a wait of pkg/iscsilib has the rounds that the code counts.
--
-- Left out: the texts of errors and logs; nil drivers and nil IDs; the start of the process, its
-- sockets and the run of the leader election (pkg/iscsi/driver.go, server.go, runLeaderElection of
-- leader_election.go), which are goroutines and library calls; the WinRM backend
-- (pkg/iscsi/backend_winrm.go, backend_fileshare.go), which is PowerShell text; of pkg/iscsilib the
-- reading of lsblk, the writing of device files, the files of connectors and the rescan of devices,
-- which the node service and Machine call; the identity service (pkg/iscsi/identityserver.go); and of
-- pkg/iscsi/internal_kubernetes.go the informers, queues and servers, which are goroutines of
-- client-go and sockets, and withDefaults. Nil listers and the set-up of the mounter (init) are left
-- out: they are taken to be there.
pub mod Prelude
pub mod Text
pub mod Strconv
pub mod Net
pub mod VolumeId
pub mod Exec
pub mod Backend
pub mod Driver
pub mod Controller
pub mod Election
pub mod Filepath
pub mod Iscsilib
pub mod Kubernetes
pub mod Node
pub mod Examples
