-- ===== src/Lib.antt =====
-- Feathers: models of the node daemon of a game server panel, and theorems about them.
--
-- The daemon (`feathers/wings.go`, `feathers/cmd`) runs the game servers of a node for the panel. A
-- server (`feathers/server`) has a process environment, a file system with a quota, pools of sinks
-- for its console output and a lock for its power actions; clients reach it over websockets and HTTP
-- (`feathers/router`), with tokens of the panel. The modules, and the code that each is about:
--
--   Prelude      the shared names: tests on numbers, lists, 64-bit integers (Int), texts (Text),
--                paths of the standard library (Filepath).
--   System       `feathers/system`. Locker is `locker.go` (`Acquire`, `TryAcquire`, `Release`,
--                `Destroy`, `IsLocked`): the channel of capacity one is its number of queued entries
--                and whether it is closed. Rate is `rate.go` (`Try`, `Reset`). SinkPool is
--                `sink_pool.go` (`On`, `Off`, `Destroy`, `Push`), over a store of channels. Lines is
--                `ScanReader` of `utils.go`.
--   Quota        `feathers/internal/ufs/fs_quota.go`: `Add` with its compare-and-swap loop, `CanFit`,
--                `Remove`, `unlinkat`.
--   Ufs          `feathers/internal/ufs/fs_unix.go`, `mkdir_unix.go`: the operations of the file system of a
--                server on paths. Kernel is the record of the calls made and `safePath`, Calls and
--                Operations are the operations; Confined and Descriptors are about what they ask of the
--                kernel, Resolve and Kept about what `unsafePath` gives.
--   Cron         `feathers/internal/cron/sftp_cron.go`: the job that groups the SFTP events, sends them and
--                deletes them.
--   Downloads    `feathers/router/downloader/downloader.go` and the handlers of remote downloads in
--                `router/router_server_files.go`: which downloads are tracked.
--   Filesystem   `feathers/server/filesystem`. Disk is `disk_space.go` with the guards of a volume:
--                the cached usage, the reservations, the size of a directory with hard links.
--                QuotaFile is `quota_file.go`: the writes of an open file and their charges. Files
--                is `filesystem.go`: writing and copying files over a list of entries.
--   Server       `feathers/server`. Platform is the check of an image, Power is `power.go`
--                (`HandlePowerAction`, `onBeforeStart`), Crash is `crash.go` and `OnStateChange` of
--                `server.go`, Console is the throttle of `console.go`, Listeners is `listeners.go`:
--                the events of the environment, the disk space limiter, the lines of the console;
--                Mounts is `mounts.go`.
--   Environment  what the process environments (`feathers/environment`) share: the tracked state
--                and its changes (`SetState`); Watch is what the server makes of the changes.
--   Docker       `feathers/environment/docker/power.go`, with `Attach` and `SendCommand` of
--                `container.go`.
--   Backup       `feathers/server/backup/backup_s3.go`: the upload of a backup in parts.
--   Remote       `feathers/remote`: the requests of the panel with their retries (`http.go`) and the
--                pages of the list of servers (`servers.go`).
--   Sftp         `feathers/sftp/handler.go` and `utils.go`: the requests over SFTP. It reads the
--                state of the server that `server/install.go` keeps.
--   Tokens       `feathers/router/tokens`: `IsValidToken`, the scopes, `DenyJTI`, `DenyForServer`,
--                `Denylisted`, `HasPermission`.
--   Websocket    `feathers/router/websocket`: the limiter, `NewTokenPayload`, `TokenValid`, `SendJson`
--                and, in Inbound, `HandleInbound` and `SendErrorJson`. It calls the power actions of
--                Server and the permissions of Tokens.
--   Paths        `feathers/internal/ufs/path_unix.go`: `basename`, `endsWithDot`, `splitPath`.
--   Winproc      `feathers/environment/winproc`. The module itself is `invocation.go`, the startup
--                command of a process; ChildEnv and Process are `power.go`, with what `environment.go`
--                and `console.go` do for it: the environment of the process, and its life.
--
-- State is passed explicitly, and what the source does to a receiver is a new value of its record.
-- An error is a value: a sum, an option, or a data type per component; a panic is one of its values.
-- Texts are lists of code points. An int64 is a ℤ whose sums are wrapped by `wrap64`; a uint64 is an
-- ℕ, and the counters say where it wraps. The clock is an argument, in nanoseconds.
--
-- Code outside the repository, and what a component reaches behind an interface, is a parameter: the
-- record `Cache` of Tokens (the go-cache library, with the documented behaviour that the store
-- relies on), `Daemon` of Server/Power (the process environment, the panel and the file system, as
-- functions on the rest of the state), `Client` of Docker (the Docker client), `Windows` of
-- Winproc/Process, `Kernel` of Ufs (the kernel, whose answers may depend
-- on all calls before), `World` of Cron (the panel and the database), `Files` of Sftp (the file system of a server), `Node` of Websocket (the
-- connection, the clock, the limiter and jwt libraries). What other goroutines do is a list of steps that the model consumes where the
-- source waits: what happens while a lock is waited for (`Wait`), while a pool waits to send
-- (`Act`), between the rounds of a compare-and-swap loop (`add_loop`), or any interleaving of
-- callers as a step relation (Server/Power/Exclusion). In the same way the attempts of an upload
-- (Backup) and of a request, with the end of its context (Remote), the answers of the queries of the job (Cron), the events of a wait (Winproc/Process) and the events of an environment (Server/Listeners) are lists.
--
-- Two definitions take fuel. `mkdir_all_within` of Ufs takes a number of ancestors, and `MkdirAll` passes
-- one more than the length of the name; any number above the length gives the same
-- (`mkdir_all_within-enough` of Ufs/Fuel). `batches_within` of Cron takes a number of rounds, and `Run`
-- passes the number of identifiers, with which all of them are in a batch (`batches-joined` of
-- Cron/Batches). Every other loop of the source that is modelled runs over a list, over a number of rounds
-- that the source gives (the 51 of `findCopySuffix`, the pages of a list), or over the steps of others just
-- named; the loops of the model are structural recursions, so they end.
--
-- Not modelled: what only calls the operating system, Docker, a database or the network (the containers,
-- images and statistics of `environment/docker`, the accounts, rights and counters of
-- `environment/winproc`, the removal of trees, the walks and the Windows side of `internal/ufs`, the SSH
-- server of `sftp`, `internal/database`, `router` but tokens, websockets and the register of downloads,
-- local backups, transfers, archives, the installer), configuration (`config`, `cmd`), the rewriting of
-- configuration files (`parser`), and logging.
pub mod Prelude
pub mod System
pub mod Quota
pub mod Filesystem
pub mod Server
pub mod Sftp
pub mod Backup
pub mod Remote
pub mod Tokens
pub mod Websocket
pub mod Winproc
pub mod Paths
pub mod Environment
pub mod Docker
pub mod Ufs
pub mod Cron
pub mod Downloads
