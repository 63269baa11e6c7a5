-- ===== src/Lib.antt =====
-- The kubelet plugin of dra-example-driver: preparing and unpreparing ResourceClaims.
--
-- The kubelet calls `PrepareResourceClaims` and `UnprepareResourceClaims` of the driver. For each
-- claim the driver takes a lock, reads its checkpoint file, makes a directory of the host for each
-- request, works out the config that each allocated device gets, lets the device profile turn the
-- configs into container edits, writes a CDI spec for the claim, and writes the checkpoint again.
-- Unpreparing removes the directories and the spec and takes the claim out of the checkpoint.
--
-- Files, and the code that they model (paths from the root of the repository):
--   Driver          cmd/dra-example-kubeletplugin/driver.go: the requests of the kubelet
--   State           cmd/dra-example-kubeletplugin/state.go: `Prepare`, `Unprepare`, `prepareDevices`,
--                   `unprepareDevices`, `restoreClaimFromCheckpoint`, `updateDeviceStatus`
--   Compute         state.go: `computeDeviceConfig`, `checkAdminAccess`
--   Config          state.go: `GetOpaqueDeviceConfigs` and the choice of a config for a request
--   Devices         state.go: `PreparedDevice`, `GetDevices`, `DeviceState`
--   Naming          state.go: `extractStableClaimName`, `isAlphanumeric`
--   ClaimDir        state.go: `createClaimDirectory`, `deleteClaimDirectory`
--   Checkpoint      state.go: `addClaimToCheckpoint`, `removeClaimFromCheckpoint`;
--                   internal/api/checkpoint and internal/api/checkpoint/v1: types and conversions
--   CheckpointFile  cmd/dra-example-kubeletplugin/checkpoint.go: `readCheckpoint`, `writeCheckpoint`
--   Cdi             cmd/dra-example-kubeletplugin/cdi.go: the specs of claims, the names of devices
--   Profile         internal/profiles/profiles.go and internal/profiles/network/network.go
--   Startup         state.go: `NewDeviceState`; cdi.go: `NewCDIHandler`, `CreateCommonSpecFile`;
--                   network.go: `EnumerateDevices`
--   Plugin          cmd/dra-example-kubeletplugin/main.go: `newApp`, `RunPlugin`; driver.go:
--                   `NewDriver`, `Shutdown`
--   Flags           main.go, pkg/flags/kubeclient.go, pkg/flags/logging.go: the flags
--   KubeClient      pkg/flags/kubeclient.go: `NewClientSetConfig`, `NewClientSets`
--   Health          cmd/dra-example-kubeletplugin/health.go: `Check`, `startHealthcheck`
--   History         any sequence of the calls of `Prepare` and `Unprepare`, the registry of claims that
--                   it refines, and the CDI specs that go with the claims
--   Services        the libraries that start servers and clients
--   World, Paths    the file system, the third-party code, `path/filepath`
--   Failure         errors, panics, calls that change the world, and triples to reason about them
--   Common, Api     shared helpers, and the Kubernetes and CDI types
--   Tests           runs at concrete worlds, and each theorem at a concrete input
--
-- A call is a function from a world to how it ends (a value, an error or a panic) and the world that
-- it leaves. What is not in the repository is a parameter, a field of `Host`: the decoder of configs,
-- the serializer of checkpoints, the CDI library, the API server, SELinux labels. Where a theorem
-- needs that the serializer decodes what it encoded, `IsCodec` says so; `HoldsSpecs` says what the CDI
-- library promises of its cache. Each system call may fail: the world holds the list of the faults to
-- come, and theorems are about every such list unless they ask for one of a kind. Go ranges over a map
-- in any order: `MapOrder` holds the orders of a call, and theorems hold for all of them. Texts are
-- lists of bytes. Every loop of the code is structural recursion over a list or a count; only printing
-- a number in decimal takes fuel, one more than the number, and it is enough, since the value can be
-- read back.
--
-- The lock makes calls of one `DeviceState` follow one another, so that a history is a sequence of
-- calls. `History.Registry` is an abstract view of it: a set of claims, and what each call may do to
-- it. The plugin as a whole starts, serves a list of requests and ends. A request that comes while
-- `NewDriver` still starts the health service is served in the model once `NewDriver` has returned.
-- What starting a server or a client returns is a field of `Services`.
--
-- Not in the model: parsing of command line flags, setting up the feature gates of logging, log
-- messages, what the gRPC servers do outside of this process, `cancelMainCtx` and signals, which only
-- end the list of requests, registration of types in schemes, generated deep copies, the umask, the
-- SELinux label of a file, the data that Go writes to disk only after `Sync`, the checks of the CDI
-- library, a `Close` in `os.WriteFile` that fails, an `os.RemoveAll` that fails half-way, and faults of
-- the `Stat` calls in `os.MkdirAll`.
pub mod Common
pub mod Naming
pub mod Failure
pub mod Api
pub mod Paths
pub mod Profile
pub mod Flags
pub mod Config
pub mod Cdi
pub mod Devices
pub mod Compute
pub mod Checkpoint
pub mod World
pub mod CheckpointFile
pub mod ClaimDir
pub mod State
pub mod History
pub mod Driver
pub mod Startup
pub mod Services
pub mod KubeClient
pub mod Health
pub mod Plugin
pub mod Tests
