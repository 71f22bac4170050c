-- ===== src/Lib.antt =====
-- A verification library for cronix, which keeps the scheduled jobs of an application in step with
-- a manifest. A manifest (JSON) is validated and normalized; the reconciler compares it with what
-- a host scheduler (a backend) has installed and applies the difference; at fire time the
-- scheduler runs the trigger shim, which loads the job's spec, resolves its secrets, takes the
-- job's lock and sends signed HTTP requests with retries; the application verifies the signature.
--
-- Files and the code that they model:
--   Manifest           go/internal/manifest/manifest.go: the data; Manifest/Cron: cron.go,
--                      `validateSchedule`; Manifest/Validate: `Parse`, `Validate` and the methods
--                      of `validator`; Manifest/Defaults: `ApplyDefaults`; Manifest/Canonical:
--                      `Canonicalize`
--   Policy             go/internal/policy/policy.go: `ScheduleName`, `Hash`
--   Backends           go/internal/backends/backend.go: the interface `Backend`, over the type of
--                      the state that the backend holds
--   Reconcile          go/internal/reconcile/reconcile.go: `Compute`, `Apply`, `IsNoop`
--   Auth               go/internal/auth/auth.go: `Sign`, `Verify`, `parseHeader`
--   Trigger            go/internal/trigger: exit codes, `computeBackoff`, `reqPath`;
--                      Trigger/Secrets, Trigger/Spec: secrets.go and spec.go; Trigger/Run: `fire`
--                      and `Run` of shim.go, with a list of events for what the shim does
--   Crontab            go/internal/backends/crontab: the file as a state; Crontab/Cron: the
--                      translation of schedules; Crontab/Owner: the ownership comment;
--                      Crontab/Adopt: taking over lines, in adopt.go
--   History            go/internal/backends/historyutil/historyutil.go: `FoldShimLogs`
--   Aws                go/internal/backends/aws: `translateAWSCron`; Aws/Description: the marker
--                      in a schedule's description; Aws/Scheduler: the operations
--   Systemd            go/internal/backends/systemd: Systemd/Calendar: cron.go; Systemd/Units:
--                      render.go, the templates and parse.go; Systemd/Host: backend.go, over the
--                      unit directory and the commands of systemctl
--   Vercel             go/internal/backends/vercel/vercel.go, over the document of vercel.json
--   Kubernetes         go/internal/backends/kubernetes/kubernetes.go: the rendered objects and the
--                      hash of a listing; Kubernetes/Cluster: the operations
--   Prune              go/internal/cli/commands/prune.go, over any backend
--   Locks              go/internal/locks; Locks/Redis: redis/redis.go, with the system of clients
--                      that share a server as a step relation in Locks/Redis/System;
--                      Locks/Flock: flock/flock.go, with the replacement of a holder
--   Config             go/internal/config/config.go: `Defaults` and `Validate`
--   Prelude            numbers, lists, strings as lists of bytes, sorting
--   Tests              concrete inputs
--
-- A Go `int` or `int64` is an integer with its wrap-around written out; a map is an association
-- list, and the order in which Go ranges over it is an argument; an error is a value. Strings are
-- bytes, with the white space and letter case of ASCII. Loops over slices are recursion on lists.
-- The retry loop is recursion on the attempts left, of which there are max(MaxAttempts, 1). The
-- digits of n are printed with fuel n + 1, which is enough since n / 10 < n. The loop over the pages
-- of EventBridge has as much fuel as there are pages, and the polls of a Redis lock are as many as
-- the waits before the deadline. In a run of the trigger only the requests and the waits take time,
-- and the lock is gone when the TTL that it was taken for has passed, as it is for a Redis lock; a
-- file lock is kept until its release.
--
-- Parameters: the JSON and YAML decoders, the cron parser of robfig/cron, net/url, HMAC-SHA256, the
-- clock, the environment, the file system, systemctl, the HTTP server, the parser of times, the
-- Redis server, file locks and signals, and the APIs of EventBridge Scheduler and of Kubernetes.
--
-- Not modelled: the other commands, which parse flags and print; the adopt command around Adopt; the
-- history of each backend, beside the fold of its records; traces and metrics; failing calls of the
-- operating system in the crontab backend.
pub mod Prelude
pub mod Manifest
pub mod Policy
pub mod Backends
pub mod Reconcile
pub mod Auth
pub mod Trigger
pub mod Crontab
pub mod Aws
pub mod Config
pub mod History
pub mod Kubernetes
pub mod Locks
pub mod Prune
pub mod Systemd
pub mod Vercel
pub mod Tests
