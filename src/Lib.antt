-- ===== src/Lib.antt =====
-- The compiler service of the repository (compiler/src): it takes signed jobs over HTTP, keeps them
-- in a durable queue, compiles each in turn and publishes the result through a control plane and an
-- object store. The model has one file or one folder for each part.
--
--   Base      names and lemmas that the parts share: lists, integers, association lists (Dict)
--   Js        strings as UTF-16 units, dynamic values, exceptions as results, bounded reads, and
--             the functions of Node that the service calls, as the fields of the record Host
--   Limits    compiler/src/production-limits.mjs
--   Bundle    compiler/src/bundle.mjs: Path, Zip, Manifest and Mods are the checks of
--             `validateBundle`, which is in Check
--   Queue     compiler/src/job-queue.mjs: Memory is `MemoryCompilerJobQueue`, Files is
--             `FilesystemCompilerJobQueue` with its records and its two directories
--   Compiler  compiler/src/compiler.mjs: Job is `validateCompilerJob`, Grants is `verifyGrantSet`,
--             Exec the calls to the outside, Worker is `CompilerWorker.run`
--   Identity  compiler/src/service-identity.mjs: Request up to the signature, Cache is
--             `InMemoryReplayCache` and `HmacServiceIdentity.verifyIncoming`, Store is
--             `FilesystemReplayStore`
--   Http      compiler/src/http-worker.mjs: Envelope is `parseEnvelope`, Consume is `consume` and
--             `handleHttp`, Callbacks is `AuthenticatedDeploymentCallbacks`, Control is
--             `CallbackBoundControlPlane`, and Process is `processQueued`, over the queue in memory
--   WorldSeed compiler/src/world-seed.mjs
--   Toolchains compiler/src/toolchain-catalog.mjs: Canonical is `canonicalize` and the
--             revision of a catalog
--   Builder   compiler/src/reviewed-builder.mjs: Catalog is `ReviewedToolchainCatalog`, Download is
--             `StrictArtifactDownloader`, Build is `ReviewedRuntimeBuilder` with Files and Remote for
--             the files that a build is made of, Tar and Zstd pack them, and Content is
--             `validateImmutableContent`; Path and Plan are what these share
--
-- State and operations. The queue in memory is a record of two maps in their insertion order; an
-- operation gives its result and the queue after it, at a reading of the clock. An operation on the
-- file system gives its result and the durable actions that it made, in order: `atomicWrite` is a
-- creation under a temporary name and a renaming, and a crash leaves the disk after any first part
-- of the actions. `lock` is that operations follow each other. A run of the worker is a function of
-- the answers of the outside, each of which may depend on all calls before it (World), and gives its
-- outcome and the log of its calls. Exceptions are the values of Fault.
--
-- Code outside compiler/src is a parameter: URL, Date.parse, JSON and SHA-256 (Host), the codec of
-- the persisted records (Codec), the signature of a request (Signer). A theorem that needs base64
-- to decode what it encoded says so. So are `inflateRawSync` and the decoder (Unpacker) and, where the
-- worker calls them, `validateBundle` and `validateImmutableContent` (Checks). So are `TextEncoder`,
-- `TextDecoder`, `toLowerCase` and `normalize` (Texts), and for the builder the sandbox, the registry of
-- runtimes and the network; the answers of a downloader may depend on the calls before.
--
-- Bounds. Natural numbers are unbounded; the tests of safe integers and the limits of the source
-- are written out. Most loops are structural recursions, on the list of what they read or,
-- in an archive, on the number of offsets to try and of entries to read. The loops over the blocks
-- of a frame and over the files of a tar take fuel; as much as there are bytes, and one more, is
-- enough, since each round reads some.
--
-- Not modelled: timeouts and aborts of requests, failures of the file system other than a crash, the
-- signing of outgoing requests and Ed25519, the loops that claim jobs and their start and
-- stop, the doubles for tests beside the builder, the generation of catalogs, the sandbox and the
-- registry of runtimes from within, the composition from configuration, and the node agent in Go.
pub mod Base
pub mod Js
pub mod Limits
pub mod Toolchains
pub mod Bundle
pub mod Queue
pub mod Compiler
pub mod Identity
pub mod Http
pub mod WorldSeed
pub mod Builder
