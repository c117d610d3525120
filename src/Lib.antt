-- ===== src/Lib.antt =====
-- A bot that lets the members of a chat workspace gather for an event: an organizer opens an event,
-- members join it or peek at it for a limited time, reminders are posted, and the event is closed
-- and its channel archived. This library models the manager's core: the rules of its entities, the
-- repository that keeps them, and the services that call both.
--
-- Parts and files (paths from the repository's root):
--   Common        shared notation; signed integers over the natural numbers (Common/Int), lists
--                 (Common/Lists), texts as lists of runes (Common/Text).
--   Domain        internal/manager/domain. Errors: errors.go; Identifier: ids.go; TimeOfDay:
--                 timeofday.go; Reminder: reminder.go; Participation: participation.go; Job: job.go;
--                 Event: event.go; Provider, Account, Workspace: the files of these names.
--   Store         internal/manager/memstore/memstore.go. State is the struct Store with New and
--                 nextID; Jobs, Participations, Events (its paged List in Paging), Logs, Tokens
--                 and Accounts are its repositories. A method is a function of the store that
--                 returns its result and the new store. One mutex guards every method, so a run of
--                 goroutines is a sequence of methods.
--   Usecase       internal/manager/usecase. Effects: deps.go and ports.go; Events: event.go;
--                 (with Create and Update in Events/Create); Participation: participation.go;
--                 Reminders: reminder.go; Identity: identity.go and providerstatus.go; Workspaces:
--                 workspace.go. A service call reads an environment (clock,
--                 provider, locations), which may answer by the calls made so far.
--                 Quiet and Participation/Aside tell which calls leave the store alone. Presses that
--                 were decided on a record that another call replaced since are in
--                 Participation/Recount and Participation/Stale.
--   Monitor       internal/manager/providerclient/monitor.go. The answers of GetInfo and the readings
--                 of the clock are a list; a list that ends is a canceled context.
--   Scheduler     internal/manager/scheduler. The handlers of handler.go, and the worker of worker.go
--                 over any handler: run, RunOnce, and poll in Scheduler/Pool.
--   Shared        internal/shared/channelname: ChannelName.
--   Bot           internal/manager/bot. Input: the text of users; DateTime: datetime.go; Pace:
--                 pace.go over Domain/Duration (domain/duration.go); Commands: command.go and
--                 action.go; Forms: form.go; dispatch.go is in Bot itself, with its replies, its
--                 arguments and its commands in Reply, Arguments, EventCommands and
--                 WorkspaceCommands. What Async runs is a Task that FormSubmit
--                 returns and run_task runs.
--   Mongo         internal/manager/store/mongo. Mongo itself: object ids of store.go; Documents:
--                 docs.go; Convert, Events and Records: convert.go, with Create of events.go; Upsert:
--                 the update of the participations, an expression that the server evaluates, in
--                 which a bare string that begins with '$' is a path;
--                 Jobs: what jobs.go sends to claim a job and to end a run of it.
-- A module Tests runs the theorems of its folder at concrete inputs.
-- A Go function keeps its name in small letters with underscores; a pointer method on a struct
-- returns the struct as it leaves it. time.Time and time.Duration are counts of nanoseconds, and
-- UTC() changes only how an instant is printed, so it leaves the count as it is.
--
-- Bounds. Integers are not bounded: durations come from policies, settings and time.ParseDuration,
-- which an int64 holds, and counts grow by one for each call, so no modelled operation leaves the
-- range of an int64 in a run that can be made. The interval loop of reminder.go runs on 33 rounds
-- of fuel: one round may pass over a time that is not after now, each later round adds a time, and
-- the loop breaks behind the 31st. Digits are printed on n + 1 rounds for the number n, which has
-- at most n + 1 digits. Calendar arithmetic of a location is a parameter, Zone, with two laws
-- (ZoneLaws): a later day is later, and a time of day on the next day is not before the instant it
-- was asked for.
--
-- Not modelled: the generated protobuf code, the texts of bot/messages.go (a message is the
-- function that renders it with its arguments), gRPC, HTTP and configuration, the queries of the
-- database store but for those named above, logging, the ticker of keepLease (a heartbeat is one
-- call). Random tokens, hashes, bson.ObjectID, the driver of the database (with
-- the precision it keeps of an instant, the argument date) and its server, base64,
-- strconv.ParseInt, time.ParseDuration, NFKC, character tables, calendars (Calendar, with
-- CalendarLaws) and formatted dates are parameters where they are used.
pub mod Common
pub mod Shared
pub mod Domain
pub mod Store
pub mod Usecase
pub mod Monitor
pub mod Scheduler
pub mod Bot
pub mod Mongo
