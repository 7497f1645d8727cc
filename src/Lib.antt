-- ===== src/Lib.antt =====
-- db-provision-operator, a Kubernetes operator that provisions databases, roles, users and grants and
-- runs backups on schedules. Its resources carry a specification and a status; a controller is called
-- with one resource, reads what the cluster and the database say, calls handlers, and writes the
-- status back with a time to come again.
--
-- Base holds the shared types: text as code points for what is assembled, native texts for what is
-- only compared, integers, counting, and the pair of a value and an error.
--
-- Sql models internal/adapter/sqlbuilder. Sql.Dialect is dialect.go, Sql.Privilege privilege.go,
-- Sql.Grant, Sql.Database and Sql.Role the builders of grant.go, database.go and role.go: a builder is
-- a record, a method a constructor of a call type with its effect on the record. Sql.Lexer is an
-- independent reading of SQL quoting, Sql.Statement a statement as parts and their tokens, and the child
-- modules of the builders relate the text of Build to the tokens of the calls.
--
-- Errors models internal/service/errors.go, IsRetryableError of internal/util/retry.go and
-- internal/reconcileutil/requeue.go: Go errors as a data type with the wrapped error inside. Retry
-- models RetryWithBackoff and CalculateRequeueAfter of internal/util/retry.go; the loop runs on the
-- attempts that are left, which the code bounds by MaxRetries + 1 or 1000, so no fuel is added.
--
-- Conditions models internal/util/conditions.go, Annotations the annotation readers of
-- internal/util/finalizers.go and internal/util/deletion_confirmation.go.
--
-- Schedule models internal/features/backupschedule. Schedule holds the resources and the World, which
-- stands for the clock, the cron parser, the time zones, the API server's answers and sort.Slice;
-- Schedule.Repository is repository.go, Schedule.Handler and Schedule.Status are handler.go, and
-- Schedule.Outcome and Schedule.Controller are controller.go, where a reconcile gives the schedule as
-- the code holds it at the end, the requeue time, the error and the calls that change the cluster,
-- in order. Schedule.Sorting states what is relied on of the sort and holds an insertion sort for the runs.
--
-- User models the deletion of a user in internal/features/user/controller.go, with GetOwnedObjects of
-- handler.go. User holds the resource and the answers it meets, User.Dependencies the grants of the
-- user and their cascade, User.Deletion the stages of handleDeletion, each a function of what the call
-- before it answered.
--
-- Drift models internal/service/drift and internal/controller/drift. Drift holds the diffs and results
-- of result.go and the loop of the four corrections, Drift.Adapter the interface of
-- internal/adapter/types/types.go as a record of operations on an unknown state of the database;
-- Drift.Memberships and Drift.Grants with Drift.Grants.Correct are grant.go, Drift.Roles role.go,
-- Drift.Users user.go, and Drift.Databases with Drift.Databases.Correct database.go. What a correction
-- relies on of the database is a record beside the theorem that needs it: TracksRole and TracksUser.
-- Drift.Adapter.Postgres is GetGrants of internal/adapter/postgres/grant.go. Drift.Orchestrator is
-- orchestrator.go over any detector, and Drift.Orchestrator.Recurring puts the detector of
-- internal/features/grant behind it.
--
-- Ownership models internal/service/ownership.go on an adapter of its own, with the order of the map of
-- schemas as a parameter.
--
-- Tests runs the models at concrete inputs.
--
-- Numbers are natural numbers without a bound where the code counts elements of a list; the sums of
-- the backup statistics wrap as int64. Times are nanoseconds. Left out are logging, metrics, events,
-- the drivers and object stores, and the wiring of the process; the other controllers and the rest of
-- the user's are not modelled. In the drift code a name is compared by its numbers, letters outside
-- ASCII keep their case, and a name is taken as one byte for each number where it is cut to 63.
pub mod Base
pub mod Sql
pub mod Errors
pub mod Retry
pub mod Drift
pub mod Conditions
pub mod Annotations
pub mod Ownership
pub mod Schedule
pub mod User
pub mod Tests
