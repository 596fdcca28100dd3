-- ===== src/Lib.antt =====
-- A model of kubernetes-controller-sharding: controllers that share their objects by consistent hashing.
--
-- The program. A ring of shards (a ControllerRing) has one Lease for each shard. The sharder process
-- runs a webhook, which assigns new objects to shards by a label, and three controllers: the sharder
-- controller, which drains or moves objects that are on the wrong shard, the shardlease controller,
-- which follows the life of each Lease, and the controllerring controller, which maintains the webhook
-- configuration and the status of a ring. Each shard holds its Lease and wraps its own reconciler in one
-- that looks at the shard label and the drain label of an object first.
--
-- The files and the code. Names are those of the source in snake case.
--   Base             shared helpers: tests, lists, texts, integers, Go maps, results, paths
--   Api              pkg/apis/sharding/v1alpha1, the fields of objects, labels (a nil map is `none`)
--   Consistenthash   pkg/sharding/consistenthash/ring.go: New, AddNodes, Hash
--   Leases           pkg/sharding/leases: ToTimes, ToState, String, ToShards
--   Sharding         pkg/sharding/ring, pkg/sharding/predicate (with LeasePredicate of the three
--                    controllers), pkg/sharding/key, pkg/sharding/handler
--   Webhook          pkg/webhook/sharder: the paths of add.go, Handle of handler.go; Applied reads the
--                    operations of a response as RFC 6902 says
--   Pager            pkg/utils/pager/pager.go
--   Sharder          pkg/controller/sharder/reconciler.go: Operation has the resync as one sequence,
--                    Workers its producer and workers as interleaved steps, Reconcile the rest
--   Shardlease       pkg/controller/shardlease/reconciler.go
--   Shard            pkg/shard/controller, pkg/shard/lease; Handover puts the webhook, the sharder and
--                    the shards together as steps on the labels of an object, Convergence as the
--                    way of a misplaced object to its shard
--   Controllerring   pkg/controller/controllerring/reconciler.go; Config has the webhook configuration
--   Configuration    pkg/apis/config/v1alpha1: the types, and their defaults in Defaults
--   Command          cmd/sharder/app/options.go: from the configuration to the options of the manager
--   Checksum         cmd/checksum-controller/reconciler.go
--   Webhosting       webhosting-operator/pkg/controllers/webhosting with pkg/apis/webhosting/v1alpha1 and
--                    pkg/utils/kubernetes.go of that module: Objects has what is made of each object,
--                    Reconcile the reconciler and its predicates
--   Operator         webhosting-operator/pkg/apis/config/v1alpha1, and in Options
--                    webhosting-operator/cmd/webhosting-operator/main.go
--   Tracker          webhosting-operator/pkg/experiment/tracker
--   Measure          webhosting-operator/cmd/measure/main.go: the cursors and objectives; Run has the
--                    queries and their tables
--   Examples         the theorems applied to concrete inputs
--
-- How it is modelled. A handler is a function of what the outside answers, and returns its result with
-- the list of the calls that it makes. The API server, the cache, the clock, the default hash and
-- apimachinery are fields of a record that the handler takes. Errors are constructors that name where
-- they were wrapped. A time is a number of nanoseconds as an integer; durations are 64 bits wide, so
-- differences saturate and sums wrap, and theorems on times ask that they lie within about 73 years of
-- each other. Hash values are natural numbers, a float32 is its bits. Maps are association lists.
-- How the API server rounds the times of a lease that it stores is a parameter.
-- `CreateOrPatch` of controller-runtime is a parameter that takes the change of an object as a function;
-- the fields of an object that no change touches are left out.
--
-- Fuel. The binary search gets the length of the list, which halves in each round; a decimal number gets
-- one round for each unit of its value, which is more than its digits; the pager gets a number of rounds
-- from the caller, since a server could send tokens forever, and a number of pages is enough for a list
-- of that many pages; a loop over a result of a query gets a round for each value, and one more.
--
-- Not modelled. Logs, spans and metrics (the counted assignments of the webhook are kept); the
-- background goroutine and the buffer of the pager as steps of their own (a context that is done stops
-- the fetching and the handling of pages); cancellation, but for the pages and the workers of a
-- resync, where a patch that is sent later may get any answer; the registration of controllers and
-- webhooks with their manager, and flags; generated deep copies; in the operator for websites its
-- templates, metrics and load generation, and the flags of the measurements.
pub mod Base
pub mod Examples
pub mod Consistenthash
pub mod Api
pub mod Leases
pub mod Sharding
pub mod Webhook
pub mod Pager
pub mod Sharder
pub mod Controllerring
pub mod Shardlease
pub mod Shard
pub mod Configuration
pub mod Command
pub mod Webhosting
pub mod Tracker
pub mod Checksum
pub mod Operator
pub mod Measure
