-- ===== src/Lib.antt =====
-- isobox: a daemon that runs untrusted code in gVisor sandboxes, one-shot or in sessions, and keeps
-- a memory of key-value stores and volumes for its tenants.
--
-- The program's parts, the file that models each, and how they meet:
--   internal/executor/executor.go, gvisor.go   Executor, Executor/CapWriter, Executor/Shell,
--     Executor/Gvisor: the data of an execution, the capped output (`write`, `pump`), the quoting
--     and the file names, the network decision and the arguments of `docker run`.
--   internal/executor/warmpool.go              Executor/WarmPool: the pool of booted containers,
--     its calls as steps; every call of docker is an entry of the pool's log.
--   internal/sched/semaphore.go                Sched: the limiter, over golang.org/x/sync's
--     semaphore, which is the parameter `Weighted` with its documented laws. Sched/Laws gives its
--     clients the interface `Slots`, which the limiter fills.
--   internal/session/kernel.go                 Kernel, Kernel/Exec: the engine of the resident
--     kernels over `Slots`, and the read loop of one step (`read_frames`); Kernel/Exec/Step: a
--     step as a whole, and the start of a kernel and of the engine.
--   internal/session/manager.go                Session and its children: Create, Teardown (Destroy,
--     drop, dropReaped), Sweep, Files, Kernels (Get, KernelExec); Session/Teardown/Races the
--     teardowns that race for a session.
--   internal/memory/kv.go, volume.go           Memory/Kv, Memory/Kv/Sweep over the parameters `Bolt`
--     (a bbolt file) and `Codec` (gob), Memory/Kv/Listing (List, over the entries that a cursor
--     walks), Memory/Kv/Store (the files of all tenants), Memory/Kv/History (a sequence of calls
--     beside a plain map); Memory/Volume: the volumes and their
--     writer lock, Memory/Volume/Scan the index against the disk, Memory/Volume/Views the rest.
--   internal/registry/registry.go              Registry, after the YAML decoding.
--   internal/api/execute.go                    Api/Limits: clampLimits and buildSpec; Api/Execute:
--     the buffered path of handleExecute, which submits a job to the queue.
--   internal/queue/*.go                        Queue: the job bus over the parameters `Broker` (the
--     stream of Valkey) and `Json`, the in-process driver, and the local run (internal/api/metrics.go).
--   internal/api/ratelimit.go                  Api/RateLimit, over golang.org/x/time/rate.
--   cmd/isoboxd/main.go                        Daemon: loadKeyStore and what it reads.
--   internal/api/router.go                     Api/Gate: authMiddleware and requireTenantKey.
--   internal/api/sessions.go                   Api/Sessions: handleCreateSession over the session
--     manager and the volumes, with Api/Sessions/Filesystem and Resident for its two paths and
--     Handler for the whole; Api/Steps and Api/Files: the other handlers; Api/Errors: the statuses.
--   internal/api/volumes.go, memory.go         Api/Volumes, Api/Memory: their handlers.
--   internal/auth/keystore.go                  Auth, over SHA-256 as a parameter.
--   Strings and Paths hold what the program uses of Go's strings and path/filepath.
--
-- How the state corresponds: a Go string is a list of bytes, a map an association list (or, for a
-- bbolt file, the parameter's type), a struct a record, and what Go reaches through a pointer a
-- value that an operation puts back under its key. Operations pass the state on explicitly; an
-- error is a value, and none of an Option stands for a panic of the daemon where the comment at
-- the definition says so. Clocks, generators, docker, the file system and the waits for a slot are
-- inputs. A number is natural: where the source has a signed one, its values below zero are 0 here,
-- as the comments say, and a subtraction that the source lets go below zero is written out. Each
-- critical section is one step; what may run between two of them is stated where a theorem is
-- about it, and Create's check of the number of sessions and its insertion are one step here. The
-- checks of a volume's Attach are one step and its lock section another; the handlers of the sessions
-- run the two with nothing in between. The warm pool's Execute is two steps, the lease and the end
-- of the exec.
--
-- Fuel: only `decimal_within` and the shell's reader `words` take a bound, 19 digits of an int64 and
-- the number of words. A worker's loop has no end, so `Queue.work_all` takes the number of its turns.
-- Every other loop is structural.
--
-- Not modelled: health, metrics and the streamed path of handleExecute
-- (internal/api), the connection to Valkey and the start and end of its workers (internal/queue),
-- the container reaper (internal/reaper), logging and metrics (internal/obs), the static site
-- (internal/web) and the rest of cmd/isoboxd, its wiring, which are I/O or glue, but for OnDrop, which
-- Api/Sessions carries out; the encoding of HTTP and of server-sent events; and the run of a docker
-- command.
pub mod Prelude
pub mod Strings
pub mod Paths
pub mod Executor
pub mod Sched
pub mod Kernel
pub mod Registry
pub mod Api
pub mod Queue
pub mod Daemon
pub mod Auth
pub mod Memory
pub mod Session
