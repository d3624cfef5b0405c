-- ===== src/Lib.antt =====
-- The agent that runs beside a Proxmox VE cluster and carries out the commands that an app leaves in
-- a Supabase database. The program's parts, and the files that model them:
--
-- internal/commands/dispatcher.go: `Dispatcher.Handle` is Commands.Dispatcher.handle, in stages that
--   follow the code's early returns; the payload of a command is decoded in Commands.Payload, the
--   switch over its kind is Commands.Route.route, and Commands.Calls lists the calls of the
--   interfaces ProxmoxActor and CommandStore.
-- internal/commands/read_dispatcher.go: `ReadDispatcher.Handle` is Commands.ReadDispatcher.handle, the
--   whitelist is Commands.Whitelist (its regular expressions are values of Pattern.Piece, and
--   Pattern.matches runs them, and Commands.Whitelist.Readable lists the same paths as texts), `buildPath` is Commands.BuildPath.build_path.
-- internal/proxmox: Proxmox.Action has the actions, Proxmox.SnapshotName the pattern of names,
--   Proxmox.Client what becomes of an HTTP exchange, Proxmox.Requests the request of each method that
--   starts a task, Proxmox.Tasks TaskStatus and AwaitTaskCompletion, Proxmox.Cluster Version and
--   ClusterResources, Proxmox.Settings the check of the settings.
-- internal/supabase: Supabase.Session has the tokens of a client with `access` and `refresh`,
--   Supabase.Token the answer of the token endpoint, Supabase.Rest the requests with one new try after
--   a 401, Supabase.Commands the operations on rows, Supabase.Client `New`. Supabase.Realtime has the
--   waits between two connections and the watch over heartbeats, Supabase.Realtime.Subscribe
--   `subscribeOnce` with its read loop, Supabase.Realtime.Frame what is sent and what a frame is taken
--   for, Supabase.Broadcast the registry of subscriptions and `refreshAndPushAll`.
-- internal/runtime/runtime.go: Runtime.Start.start is `Start` until the private key is ensured,
--   Runtime.Persist `persistRefreshTo`, Runtime.ClusterWait `waitForClusterStateMatch` with
--   `hasGuestState` and `countSnapshotEntries`. Agent puts the dispatcher and both clients together,
--   and Agent.Pipeline has `handleCommand` and `pushOnce`.
-- internal/enroll/enroll.go: Enroll. cmd/proxmoxvue-agent/main.go: CommandLine.Register is `runRegister`
--   with `promptProxmoxConfig`.
-- internal/remoteconfig/fetcher.go: RemoteConfig.load is `Load`, with the checks of its sources.
-- internal/config/config.go: Config.Agent has the defaults and the validation, Config.Level the log
--   levels, Config.Redaction the printed forms, Config.Storage Save and Load with the comments on keys.
-- internal/crypto/hpke.go: Crypto.decrypt, over a parameter of type Hpke that stands for circl.
-- internal/keysync/keysync.go: KeySync has EnsurePrivateKey, RotateKey and UploadPublicKey, and
--   PublicKeyFromPrivate of internal/crypto/hpke.go.
--
-- How they interact: a dispatcher claims a row and completes it through the client of Supabase, and in
-- between starts a task through the client of Proxmox and waits for it. Code that calls out is a
-- program of Base.Program, a tree of calls with a branch for each reply. A World answers the calls in
-- any way it likes, with all earlier events in view, so it stands for any behaviour of the servers, the
-- network, the clock and the other agents; Base.Ledger weighs the calls of a program against its
-- replies, and Base.Ledger.Pool lets any number of programs run side by side. Base.Compose carries out the
-- calls of one program by programs over other calls, so that what two levels guarantee holds of both
-- together. Runtime.Persist.Disk reads the calls of a program as changes of files, of which a crash
-- may leave a part.
--
-- Bytes are numbers in lists, times are nanoseconds since Go's zero time, an int64 is a signed number
-- with its wrap-around where the code multiplies. JSON is a tree (Json), decoded into structs as
-- encoding/json does; of several errors in one document the model may report another than the decoder.
-- The loops with fuel are Proxmox.Tasks.await and Runtime.ClusterWait.poll, one unit for each poll, of
-- which theorems below tell how much is enough, and the read loop of a subscription, one unit for each
-- frame; that one runs as long as its connection does, so for any fuel there is a longer run.
--
-- Parameters are the libraries that the code calls: circl, YAML, the host of a URL, the text of a float
-- (strconv), of a time (RFC 3339), of a duration, of a quoted string and of a raw JSON message. Spaces
-- and letters outside ASCII are not trimmed or lowered in log levels and prompts. Not modelled: logging,
-- the context's cancellation outside of the waits, of deliveries and of the read loop, the locks of the
-- client (a session belongs to one goroutine at a time), the goroutines that runSubscription and Start
-- leave running, the ticker and the catch-up of the runtime, the flags of the command line, --run in front
-- of Start and --rotate-key in front of RotateKey, and the packaging.
pub mod Agent
pub mod Base
pub mod Base64
pub mod CommandLine
pub mod Commands
pub mod Config
pub mod Crypto
pub mod Enroll
pub mod Json
pub mod KeySync
pub mod Pattern
pub mod Proxmox
pub mod RemoteConfig
pub mod Runtime
pub mod Supabase
pub mod Url
