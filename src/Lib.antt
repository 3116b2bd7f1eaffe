-- ===== src/Lib.antt =====
-- Skifity puts applications on a cluster of servers. This library models the parts of the panel
-- and of the edge that decide something by themselves, and what makes those decisions right.
--
-- The program's parts and their files
--
-- * The edge rules (internal/edgerules/edgerules.go). A rule set is saved only if `Validate`
--   accepts it, and is then evaluated for each request. EdgeRules/Types.antt has the data,
--   EdgeRules/Evaluate.antt `RuleSet.Evaluate` with everything below it and `Needs`,
--   EdgeRules/Validate.antt `Validate`. EdgeRules/Complete.antt, Decides.antt and Unread.antt
--   hold the theorems. `Expr` has four optional parts, and a slice that is absent differs there
--   from one that is empty, so the model has a type `Group` for such a slice.
-- * The client's address (internal/edgerules/clientip.go) is in EdgeRules/ClientIp.antt, what it
--   guarantees in EdgeRules/Forwarded.antt. A loop from the right over the parts of a header is a
--   function of the reversed parts.
-- * The guard (internal/guard/guard.go) is in Guard.antt: its state, `Reload`, `Decide` and the
--   status that each handler answers with; the theorems are in Guard/Laws.antt and Lookup.antt.
--   It calls the edge rules with a request that it builds from the headers it may believe.
-- * The event hub (internal/events/hub.go) is a state machine: its state and the histories of the
--   topics are in Events/History.antt, its steps in Events/Hub.antt. Each section that the mutex
--   guards is one step, and so is what happens outside the mutex: the number that `Publish`
--   takes, and each send of a replay. `run` takes any sequence of steps. A map is an association
--   list without repeated keys. Events/Channels.antt, Topics.antt, Waiting.antt, Asked.antt and
--   Sweep.antt hold the lemmas on the parts of the state, Events/Invariant.antt and Private.antt
--   what every run keeps.
-- * Schedules (internal/cron/cron.go) are in Cron/: Number.antt has Go's 64-bit int and
--   `rangeOf`, Schedule.antt the parser, the matcher and the canonical spelling, Calendar.antt
--   what is taken from package time, with the length of five years in Calendar/Years.antt,
--   Next.antt `DueNow` and `NextRun`, Range.antt, Fuel.antt and Bounds.antt the theorems on
--   `rangeOf` and `parseField`.
-- * The scopes of a token (internal/auth/scopes.go) are in Scopes.antt. Scopes/Laws.antt is about
--   the resource of a path, Scopes/Grants.antt says what a scope grants, as the shapes that it
--   may have, and Scopes/Usable.antt is about what is accepted when a token is made.
-- * Shell quoting (internal/shellsafe/shellsafe.go) is in Shell.antt; Shell/Posix.antt has a
--   reader of POSIX words, which is the specification that it is held to.
-- * The watcher (internal/watch/watch.go) is in Watch/: Types.antt has the rows that a pass
--   reads, the answers of the cluster and the database, and the messages, Servers.antt
--   `checkServers`, Apps.antt `checkApps` with the certificates, Once.antt the previews and the
--   whole pass. Each operation gives the new row and the messages it sends. News.antt
--   says what there is to tell of the rows before and after a pass. Certificates.antt, Quiet.antt,
--   Told.antt and Agrees.antt hold the theorems.
-- * The readiness report (internal/deploy/scaling.go) is in Scaling.antt: a finding is its code, its
--   severity and the values in its detail. Scaling/Laws.antt has the theorems.
-- * The deployments of the apps and their build logs (internal/store/deployments.go), and the
--   maintenance that deletes old rows (internal/store/retention.go), are in Deployments/: the
--   tables are lists of rows, and each statement is a function on them, with the constraints of
--   the tables (internal/store/migrations/0001_init.sql). Rows.antt has the rows and what is
--   asked of them, Writes.antt what writes deployments, Logs.antt the build logs, Retention.antt
--   `Prune`, Begin.antt the rows that `Deploy` writes, Changes.antt any sequence of writes.
--   Consistent.antt, LogKeys.antt and Invariant.antt are about the keys, Settled.antt about
--   finished deployments, Replaced.antt about the start of one, Window.antt and Within.antt about
--   rollbacks, Pages.antt, Resume.antt and Batch.antt about build logs, Spare.antt and
--   Windows.antt about the maintenance.
-- * What is uploaded (internal/upload/upload.go) is in Uploads/: Names.antt has `checkName`,
--   Archive.antt `walk`, `Inspect` and `ReadTree`, Shelf.antt the store of the uploads. An archive
--   is the entries that the tar reader gives, and whether they end as they should. Inside.antt
--   has the walk of a path that a name is held to, Accepted.antt and Reported.antt are about
--   archives that are accepted, Overflow.antt about a total that wraps, Kept.antt and Saved.antt
--   about what an app keeps.
-- * Names in the cluster (internal/kube/naming.go) are in Naming.antt, with the hash as a
--   parameter. Naming/Labels.antt and Cuts.antt are about labels and trimmed texts, Slugs.antt
--   and Objects.antt about the names that are built.
-- * The work of adding a server (internal/provision/runner.go, provisioner.go, and the operations
--   of internal/store/servers.go) is in Provision/: Plan.antt has the rows of operations, steps and
--   servers, Runner.antt what runs and what is recorded of it, AddServer.antt the loop over the
--   steps, Retry.antt `RetryServer`. What a step does over SSH is a parameter: how it ends, and
--   whether the context of the worker is live after it. Statuses.antt, Steps.antt and Ends.antt
--   are about what a worker leaves, Stuck.antt about one whose time is up, Resumes.antt about a
--   restart. Taking a server out (internal/provision/remove.go) is in Drain.antt, the eviction of
--   its pods and the wait for them, and Remove.antt, the worker; Drains.antt, Stages.antt and
--   Removes.antt are about them.
--
-- Net.antt has what the program uses of net/netip and net. Prelude.antt and the files below it
-- have the shared names: tests on numbers, lists, text as a list of bytes, decimals, tables. Tests/
-- has runs at concrete input.
--
-- Bounds and fuel
--
-- The loop of `rangeOf` has fuel for 128 values; a field has at most 60, and a step that wraps
-- adds at most one value below zero for each. A year of the calendar has at least 365 days, which
-- bounds the years that a count of days can hold, and a year has twelve months. The scan of
-- `NextRun` runs over the minutes that are left before its limit. The wait for a drain has fuel for
-- 62 answers: there are five seconds between two of them, and it ends after five minutes.
-- Everything else is structural.
-- A text is a list of bytes, each a number; letters and white space are those of ASCII. The
-- counter of events does not wrap. Times are seconds or minutes since 1970, in UTC; those of
-- the rows of a database are nanoseconds, and a window of days is a duration of 64 bits. The
-- maintenance compares times as the texts that the database holds; where rows are ordered by a
-- time, the order is that of the times, from which that of the texts differs within a second.
--
-- Not modelled
--
-- The parsers of addresses, ranges and regular expressions are a record of functions (`Parsers`
-- in Net.antt), the reader of the rules file and the lookup of a location are arguments of the
-- guard's functions, and the answers of the cluster and the database are an argument of the
-- watcher's. The readers of gzip and tar are the value that they give, and a hash is a function
-- or a value. The text of an error is left out: an error is a constructor. The guard's listener,
-- the timers and the download of databases are I/O. A statement of the database that fails for
-- another reason than a constraint, or a context that is over, leaves its rows as they are. The
-- steps of adding a server run commands over SSH, and its key is sealed by a library; promotion
-- repeats them in another order. The packages that are not named above drive a database, a
-- cluster, SSH, or the network.
pub mod Prelude
pub mod Net
pub mod EdgeRules
pub mod Guard
pub mod Events
pub mod Cron
pub mod Scopes
pub mod Shell
pub mod Watch
pub mod Scaling
pub mod Deployments
pub mod Uploads
pub mod Naming
pub mod Provision
pub mod Tests
