-- ===== src/Lib.antt =====
-- uade-bot: a Discord bot that polls UADE's enrolment site for places in courses.
--
-- The parts that are modelled, and where:
--   * internal/scheduler/scheduler.go, the module Scheduler. Types holds its types. Backoff is
--     signalFor, NextBackoff and the test of accountPaused. Schedule is the state that `mu` guards,
--     with one function for each critical section: Add, the locked part of Reconcile, the pick of RunOnce,
--     PollNow, nextImmediate and finishAccount. Outcomes is handleOutcome with dispatchPause and
--     dispatchVacancy, over the interfaces Store, Notifier and Clock in Ports; Payload is the text that
--     notificationDeliveryKey digests. Running joins these for one goroutine: Reconcile, the selection
--     of RunOnce, the pipeline of a job and the loop of runAccount. Threads is the interleaving of all
--     goroutines, a step for each critical section or operation on the semaphore.
--   * internal/scheduler/sqlstore.go, the module SqlStore. Statements has the tables of
--     internal/store/store.go with the columns in use and the statements on them, any of which the
--     driver may fail; a transaction that fails before its Commit is rolled back, and one whose Commit
--     fails stays open with what it wrote, as the comment in Open says. `sql_store` is the
--     implementation of the scheduler's interface Store.
--   * internal/entra/session.go, the module Entra. Session has one function for each call, over the
--     services of Microsoft, the resource, the token file and the clock; a renewal is split at
--     Microsoft's answer, for what happens while it is in flight, and Interleavings
--     has the sections under the session's lock as steps of any goroutines.
--   * internal/uade, the module Uade: Delta is ParseDelta, with the memory behind its slice of runes;
--     Rows is FilterVacancies, Classify, transportOutcome and the end of Search.
--   * internal/dashboard/snapshot.go, the module Dashboard. Labels has the labels of codes, History
--     loadHistory and dedupeHistory, Snapshot the rest of Build over the rows of its queries.
--   * internal/jobactions/jobactions.go, the module JobActions, over the tables of SqlStore.
--   * internal/discordhttp/commands.go and format.go, the module Commands. Desk is what a command works
--     on, the database and the callbacks, with the configuration; Format has the pure formats;
--     Jobs is mutateJob and findExistingJob; Searches is savePendingSearch,
--     materializePendingSearchResult and resolveMateriaName; Buscar is buscar; Accounts has the
--     credentials, the bans, the administrators and the log; Dispatch is DispatchInteraction, over the
--     handlers that Views has: estado, autocomplete, the counts and the button of components.go.
--     Microsoft is microsoft.go, over any sessions. Policy
--     is the abstract view of the bans and the administrators: two sets and the orders on them.
--   * internal/app/runtime.go, the module App: Messages is notificationText, escapeDiscordText and
--     notificationMessages, Split is splitNotificationContent, Notifier is Notify, over any sender
--     and any store of the progress, and Polls is job and poll with healStartURL and
--     resolveStaleOutcome, over any portal and any site; Wakes is safeTick, JobCreated,
--     AccountActivated, JobsChanged, PrepareAccount and ResolveMateria.
--
-- A function that returns `(T, error)` and may panic is a state-passing function with a `Result` of
-- three constructors; what was written before an error stays written. A Go `int` is an integer in
-- two's complement with 64 bits, where sums wrap around; the numbers of rows that the dashboard counts
-- are natural numbers. A `time.Time` is the number of nanoseconds since its zero value. A map that is
-- only looked up is a function with its zero value; one that is iterated over or counted is an
-- association list. `sort.Strings` is an insertion sort on code points, which is the order of the
-- bytes of UTF-8. sha256, strings.TrimSpace, NormalizeMateriaName, materiaName and the JSON decoders
-- are parameters, and so are the cipher of the
-- credentials, the JSON encoders and ValidStartURL.
--
-- The loop of runAccount runs on fuel: more than the number of ids in the account's queue is enough.
-- The loop of ParseDelta runs on one round more than the text has characters. The inner loop of
-- splitNotificationContent runs on two rounds more than the text has runes, the outer loop on one more;
-- that of materializePendingSearchResult runs as often as the caller's fuel says, and one round is
-- enough where no other goroutine replaces the pending search. All other loops are recursion on a
-- list.
--
-- Not modelled: the gateway and the REST side of Discord, the loop that ticks the runtime and the
-- cancellation of contexts, the dashboard's server, the transport and the forms of the site, the
-- single sign-on, the sign-in by device code, encryption, system statistics and the commands' wiring.
-- Of a session, callers that wait on a renewal in flight and the background ticker are left out.
mod Prelude
pub mod Scheduler
pub mod SqlStore
pub mod Entra
pub mod Uade
pub mod Dashboard
pub mod JobActions
pub mod Commands
pub mod App
