-- ===== src/Lib.antt =====
-- mantlerd is the agent daemon of a machine in a Mantler fleet. It checks in with a server, receives
-- commands, and drives the runtimes, trainers and tools of the machine.
--
-- internal/policy/policy.go is Policy: `allowed` is Allowed, `is_destructive` is IsDestructive.
-- internal/runtime/manager.go is Runtime: Runtime/Manager has the registry and the calls that one driver
-- serves, Runtime/Prepare the Prepare methods, Runtime/Start the Start methods with emitOutcome;
-- Runtime/Driver is the interface in driver.go, Runtime/Catalog is catalog.go. The drivers themselves are
-- parameters: a driver acts on a host of any type, and a clock and the texts of errors are parameters too.
--
-- internal/transfer is Transfer: Transfer/Token is token.go, Transfer/Server the handlers of server.go,
-- Transfer/Address its RankedTransferAddresses, Transfer/Store is store.go. The limit on concurrent
-- transfers is modelled over explicit schedules: a request to handleBlob is a Phase, a step moves one request
-- from one access of the atomic counter to the next. JSON, base64, HMAC, the disk and the network
-- interfaces are parameters.
--
-- internal/relay/client.go is Relay: Relay/Target computes and accepts URLs, with internal/runtimeport;
-- Relay/Proxy is handleProxyRequest, over a trace of what is sent and forwarded and a network that may
-- answer by the whole trace; Relay/Session is runOnce with readAndHandle. A body is the finite sequence of
-- what its reads return, and a connection the finite sequence of the passes of its loop.
--
-- internal/manifest/memory.go is Manifest: Manifest/Memory has the estimates, over abstract floats of which
-- no law is assumed, and Manifest/Plan is PlanModelLoadingWithSnapshot. Sizes in MB are natural numbers:
-- where Go's int could be negative, the code cuts it off at 0, or the term stands on the other side.
--
-- internal/trainer is Trainer: Trainer/JobStore is job_store.go, Trainer/Job and Trainer/Status the records
-- and the derived status in manager.go. Time is counted in seconds from Go's zero time on, JSON and the
-- parsing of timestamps are parameters.
--
-- internal/pipeline/crypto.go is Pipeline/Sealing and SerializeIntegrityForSigning in
-- internal/pipeline/contract.go is Pipeline/Signing; the cryptographic packages, package rand and Go's
-- integers with their digits are parameters.
--
-- cmd/mantler/start.go is Agent: Agent/Outcomes is outcomeBuffer, with its use by runCheckIn in
-- Agent/Outcomes/Queue; Agent/Dispatcher is commandDispatcher, an event for each step of one of its
-- goroutines, with the lanes of internal/commands/executor.go in Commands/Lanes.
--
-- internal/client/client.go is Client: Client/Retry is Retry with its decision, over the replies of the
-- calls, and Client/RetryAfter is parseRetryAfter, with the int64 of a duration written out. In
-- cmd/mantler/helpers.go, ackCommandWithRetry and the file of failed acks are Agent/Acks, and enforceDesiredConfig
-- and reconcileStaleModels are Agent/Reconcile, over the manager of Runtime.
--
-- In cmd/mantler/explore.go, sanitizeRuntimePlanPath is Explore/Paths, with Go's filepath.Clean for Unix, and
-- applyRuntimePlanFiles is Explore/Files, over the files of the host as a function from paths. Directories
-- and the modes of files are not modelled; a path that could be written can be written and removed again.
-- filterRuntimePlanArgs and filterRuntimePlanEnv are Explore/Filters.
--
-- internal/transfer/client.go is Transfer/Client: the peers and addresses in turn, the check of the digest,
-- and what is done with files; the reply to a request and the success of an operation on files are
-- parameters. filepath.Clean and Join for Unix are Base/Paths.
--
-- internal/commands/executor.go is Commands: Commands/Executor has the gate of the policy and the registry of
-- cancel functions, with a step for each beginning, cancelling and finishing of a command, Commands/Manifests
-- the manifests of the orchestrators that run, and Commands/Lanes the lanes.
--
-- The status of a check-in and the delay before the next one, in cmd/mantler/start.go, are Agent/Schedule.
--
-- internal/manifest/preflight.go is Manifest/Preflight, with the probe of an endpoint (and internal/netutil) in
-- Manifest/Probe, and internal/manifest/watchdog.go is Manifest/Watchdog; their texts are Manifest/Messages. Both
-- call the modelled runtime manager. A tick of the watchdog's ticker is a step, and any number of them is run.
--
-- In internal/commands/executor.go, the environment files are Commands/EnvFile and the runtime profile of a
-- command is Commands/Profile. The host's files are a function from paths to contents.
--
-- Trainer/Manager has the operations of internal/trainer/manager.go, by the sections that run under the lock;
-- Trainer/Manager/Held interleaves the sections.
--
-- The rest of internal/pipeline: Pipeline/Value is canonical JSON over a data type of JSON values,
-- Pipeline/Context the contract of a compressed context and the texts of the requests, and Pipeline/Stage the handler
-- with both stages; the call of the local runtime is a parameter. A Go map is listed in one order of
-- its iteration; that json.Marshal writes a map by its sorted keys is the law IsJson of Pipeline/Value/Canonical.
--
-- Commands/Params reads the parameters of a command, over the JSON values of Pipeline/Value, and Commands/Config
-- has the settings of llama.cpp and quant.cpp in internal/commands/executor.go.
--
-- Commands/Models has the commands pull_model, start_model, stop_model and remove_model of
-- internal/commands/executor.go, over the manager of Runtime, the environment files and profiles of Commands and the
-- client of Transfer; Commands/Cluster is what start_model writes for a cluster. The files of a host are read and
-- changed by two functions of the model, since the drivers act on the same host.
--
-- Commands/VllmEnv is withVLLMRuntimeEnv with persistVLLMEnvOverrides of internal/commands/executor.go, over the
-- variables of the process, and Commands/Runtimes has the commands install_runtime, uninstall_runtime and
-- restart_runtime with the settings of Commands/Config.
--
-- Explore/Plan is applyExploreRuntimePlan of cmd/mantler/explore.go with the function that it returns; the calls of
-- restartOllamaService are counted.
--
-- Conventions. A `map[string]V` is an association list (Base/Dict), whose order stands for one order of
-- iteration; where the code sorts, theorems say that this order does not show. sort.Slice,
-- which leaves the order of equal elements open, is a sort that keeps it. A pointer receiver that
-- is changed is passed on as a new record; an `error` is an `Option`, and a formatted message is
-- represented by the arguments from which it is formatted. Texts are lists of Unicode code points;
-- strings.TrimSpace trims the characters with the property White_Space, and strings.ToLower and
-- strings.ToUpper are those of the ASCII letters, which are the only letters in the names that the
-- program compares in this way. Integers that cannot be negative are natural numbers without a bound.
--
-- Bounds. No definition runs on fuel: loops are recursion on the lists that they go through, the retries of
-- Client/Retry on the number of attempts that are left, and the daemon's endless loops are steps, of which
-- theorems take any number. Durations that are multiplied or shifted keep Go's int64 written out
-- (Client/RetryAfter, Agent/Schedule); other integers are counts and sizes far below it.
--
-- Not modelled. The drivers of runtimes, trainers and tools, the service manager, discovery and the scripts of
-- the installation are commands and HTTP calls of third-party programs; what the daemon needs of a runtime's driver
-- is the record Runtime/Driver, over any state of the host. The terminal of cmd/mantler, the local socket, the
-- harnesses and orchestrators that executor.go starts, the evaluation of models and the raw
-- requests of internal/client and internal/relay are input and output around the modelled decisions. The
-- configuration file, the keys and the audit log are read and appended as they are.
pub mod Base
pub mod Policy
pub mod Runtime
pub mod Transfer
pub mod Relay
pub mod Manifest
pub mod Trainer
pub mod Pipeline
pub mod Client
pub mod Commands
pub mod Agent
pub mod Explore
