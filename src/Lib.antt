-- ===== src/Lib.antt =====
-- runboxd runs untrusted code for an HTTP client. A request comes in at internal/api, which checks
-- it, lets it through a worker pool and asks a backend of internal/sandbox for a run: Docker, or
-- nsjail. Which languages a backend has is read from the registry (internal/registry), which is
-- generated from image specifications (internal/imagespec) by cmd/runboxctl. internal/langtest runs
-- the tests of a language in a backend.
--
-- Base: Go's int64 with its wrap-around (Int), float64 (Float), strings as lists of bytes (Text),
--   maps with string keys as association lists in an arbitrary order (Map), their keys in sorted order
--   (Sort), and results with errors (Result).
-- FilePath: `IsLocal`, `Join` and `Dir` of path/filepath, as the documentation of `Clean` describes
--   them.
-- ImageSpec: internal/imagespec/imagespec.go. ImageSpec/Filter is `ParseLangFilter`, ImageSpec/Spec is
--   `validateSpec` and `FilterVersions`, ImageSpec/Load `LoadFiltered`.
-- Registry: the structures of internal/registry/registry.go, and Registry/Filter `Filter`.
-- Config: internal/config/config.go, and `getSandboxConfig` of cmd/runboxd/main.go;
--   Config/Daemon is `run` and `reapLoop` of that file.
-- LangTest: internal/langtest. LangTest/Fixture and LangTest/Load are fixture.go,
--   LangTest/Run is run.go.
-- Images: the commands cmd/runboxctl/cmd/images. Images/Generate and Images/Shell are genimages.go, with
--   `createDockerfile` in Images/Generate/Dockerfile and `runGenImages` in Images/Generate/Command;
--   Images/Lock is genlock.go, with `runGenLock` from its flags on in Images/Lock/Command, Images/Build buildimages.go with the command itself in
--   Images/Build/Command, Images/Rootfs exportrootfs.go with the command in Images/Rootfs/Command,
--   Images/Validate validate.go, Images/List list.go. Images/Group is the errgroup that the commands
--   use.
-- Sandbox: internal/sandbox. Sandbox/Limits is limits.go; Sandbox/Entries the table of languages that
--   docker.go and nsjail.go make, with `lookupSpec`; Sandbox/Clamp `effectiveTimeout` and
--   `effectiveMemoryBytes`; Sandbox/LimitWriter `limitWriter`; Sandbox/Workspace `setupWorkspace`;
--   Sandbox/Docker `Run` of docker.go, Sandbox/Docker/Host `getHostConfig` and Sandbox/Docker/Container
--   the configuration of a container; Sandbox/Docker/Reaper `reapOrphans`; Sandbox/Nsjail `Run` of
--   nsjail.go, with Sandbox/Nsjail/Config and Sandbox/Nsjail/Template for `writeNsjailConfig`;
--   Sandbox/Cgroup cgroup.go; Sandbox/Factory factory.go and capability.go, `NewDockerSandbox`,
--   `NewNsjailSandbox` and `Ping`, and each backend as the interface that the API uses.
-- Api: internal/api. Api/Validation and Api/Execute are `handleExecute` of api.go with its checks;
--   Api/Server the server, its other handlers, auth.go and the order of the middleware; Api/Pool
--   workerpool.go.
-- Examples: the theorems at concrete inputs.
--
-- A handler is a function from what it is given to what it answers and what it asks of the backend.
-- `Run` is a function from the answers of the disk and of the Docker daemon (or of nsjail) to its result and to the
-- calls that it makes, in order, the deferred ones included. The worker pool is a relation of steps:
-- one step is one access of one request to the channel or to the counter, and any number of requests
-- interleave. Fewer than 2^31 requests are in flight at once, which is what the int32 counter can
-- count. Loops are structural recursion; the only fuel is in Base/Float, where 128 halvings are
-- enough for the product of a 53-bit significand and 10^9.
--
-- What build-images and export-rootfs do with one version is a function from the state on the disk, and
-- from how its calls end, to the new state and the error. A command is one such pass for each version that
-- is loaded; the order of the passes, which run side by side, is an argument, and each pass is taken at
-- once.
--
-- Not modelled: the temporary container that export-rootfs removes when a pass ends, how the float64 of
-- `Seconds` rounds durations above 2^22 seconds, how numbers and quoted strings are written in the configuration of nsjail, the flags of
-- the commands and the layout of the tables that they print, logging, the order of accesses inside passes
-- that run side by side, and the fake backend for tests (internal/sandbox/fake.go). YAML, JSON, the HTTP
-- router, the Docker client, `strconv.Atoi`, SHA-256, nsjail and the file system are code of others: what
-- the source uses of them is an argument of the definitions above.
pub mod Base
pub mod FilePath
pub mod ImageSpec
pub mod Registry
pub mod Sandbox
pub mod Api
pub mod Config
pub mod LangTest
pub mod Images
pub mod Examples
