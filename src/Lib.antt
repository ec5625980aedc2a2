-- ===== src/Lib.antt =====
-- Verification of Hedronetes (h3s), a Kubernetes-compatible control plane in Rust.
--
-- Storage models crates/h3s-storage: the registry that every other part reads and writes. Its
-- objects are versions in a log with one number per write (an MVCC store over SQLite).
-- - Storage/Types, Storage/Keys: the types of lib.rs, StoreKey::new, validate_prefix, is_secret_key.
-- - Storage/Table: the tables and the queries of sqlite.rs. The SQL statements are functions over
--   lists of rows; the log is kept with the newest row first, which is the order of insertion.
-- - Storage/Mutate, Storage/Read, Storage/Maintain: mutate and its three callers; get, list and
--   changes; compact, maintain and the leases.
-- - Storage/Log, Commit, Current, Snapshot, Writes, Answers, History, Replay, Ascending, Batch, Watch,
--   Pages, Listing, ListPage: proofs.
-- A store method takes the database and gives its result and the new database. An error inside a
-- transaction gives the old database back, since rusqlite rolls a dropped transaction back. Methods
-- run one after the other, as they do behind the connection's mutex. The clock is an argument.
-- The custody of Secrets (Geode, an external program) is an argument, `SecretsSealer`; no law is
-- assumed of it, but that it answers the same to the same bytes. maintain is one step, though the code
-- releases the connection between its parts. The expiry of a lease is not bounded by i64.
-- Not modelled there: opening files and checking the schema, failures of SQLite and of the worker
-- thread, the timing of the watch stream around `changes`.
--
-- Quantity models crates/h3s-api/src/quantity.rs, resource quantities such as `1.5Gi`.
-- - Quantity/Parse: the syntax check and the conversion, with the checks of i128 and i64.
-- - Quantity/Grammar: the syntax as a table of suffixes and a spelling. Quantity/Rounded, Exact,
--   Accepts: proofs.
--
-- Json is serde_json's Value, the data in which the scheduler reads objects: its variants, and what its
-- documentation says of indexing (`v ! "k"` is `v["k"]`), of the accessors and of assignment.
--
-- Scheduler models crates/h3s-scheduler, which binds waiting Pods to Nodes over the API.
-- - Scheduler/Resources, Nodes, Affinity, Select: placement.rs, function by function. chrono's times
--   are an argument (`Chrono`): instants, the parser of RFC 3339 and the difference in milliseconds.
-- - Scheduler/Condition, Cycle: `condition` and `reconcile_once` of lib.rs. What the clock and the API
--   answer to each candidate (`Replies`) is an argument, with every answer that the code tells apart.
-- - Scheduler/Demand, Feasible, Best, Assign, Replace, Accepted, Commit, Settle: proofs.
-- Not modelled there: the HTTP client, the timers of `run`, the metric of bindings.
--
-- Auth models crates/h3s-auth: who may do what.
-- - Auth/Rbac: users, requests and the evaluation of RBAC in lib.rs. Of the objects of k8s-openapi
--   the fields that the code reads are kept. Auth/Node: the node authorizer, node.rs.
-- - Auth/Certificate: User::from_verified_certificate of lib.rs. The parsed certificate is an argument.
-- - Auth/Subjects, Granted, Grants, Rules, Scope, Identity, Basic, Bounds: proofs.
-- Not modelled there: the bootstrap policy, which is data.
--
-- Network models crates/h3s-api/src/network.rs, which subnet each Node has, and valid_node_name of
-- crates/h3s-api/src/lib.rs.
-- - Network/Names, Allocations: the functions. The IPv4 networks of the ipnet crate are an argument
--   (`IpNet`); what its documentation says of subnets is the hypothesis `IsSubnetting`.
-- - Network/Controller: node_cidrs_once of crates/h3s-controllers/src/node_cidrs.rs, with the answers to
--   its patches as an argument.
-- - Network/Reserve, Next, Assigned: proofs.
--
-- Selectors models crates/h3s-apiserver/src/selectors.rs, the label and field selectors of LIST and
-- WATCH, over the code points of a text.
-- - Selectors/Text: the types and the checks of names. Selectors/Labels, Fields: the two parsers.
--   Selectors/Selection: parse, matches and the other operations. Selectors/Trims, Escapes, Written,
--   RoundTrip: proofs.
-- An integer of a document is printed with at most twenty digits, which every 64-bit integer has.
--
-- Patch models crates/h3s-apiserver/src/patch.rs and patch/strategic.rs, the patches of an object. The
-- generated schemas, serde_json's codec and the json_patch crate are arguments.
-- - Patch/Budget: refusals, and the budget of work as a state. Patch/Schema: resolve, field, strategy,
--   merge_key and identity. Patch/Fields: serde_json's Map, ordered by keys.
-- - Patch/Reorder, Directives, Merge: reorder; the directives of map; apply, merge, map, fresh and list.
--   The recursion is on the structure of the patch, so the limit of 64 levels is only a test.
-- - Patch/Apply: patch.rs.
-- - Patch/Measure, Sequence, Frame, Weight, Size, Growth, Parts, Bound, Fresh, Copied,
--   Pruned: proofs.
--
-- Proxy models crates/h3s-proxy/src/plan.rs, which rules nftables gets for the Services of a snapshot, and
-- crates/h3s-api/src/service_forwarding.rs.
-- - Proxy/Ip: addresses and std's parser of them. Proxy/Types: Protocol, Backend, Frontend, Plan and the
--   readers of fields. Proxy/Forwarding: ServiceForwarding.
-- - Proxy/Nodes, Backends, Draft, Frontends: the loops of `plan`, one function each. Proxy/Render: `render`.
-- - Proxy/Claims, Matches, Usable, Collects, Exact, Listing, Addresses, Published, Served, Rules, Chains, Ruleset:
--   proofs. Apart: lists whose elements differ pairwise.
-- ipnet's networks and SHA-256 are an argument, `Platform`; no law of either is assumed. The text of the
-- rules is ASCII, so that its length in characters is the one in bytes. A warning is kept
-- by its parts.
--
-- Rollout models `plan` of crates/h3s-controllers/src/workload/deployment.rs, the next step of the rollout of a
-- Deployment, with `replicas` of workload/mod.rs. Rollout/Plan: the functions; Steps, Progress: proofs.
-- Not modelled there: the sync with the API, the status, and the overflow of the sum of available replicas.
--
-- The API server reads and writes the storage, asks Auth for each request, and serves the scheduler,
-- the controllers and the kubelets, which meet only through it.
--
-- Numbers are natural numbers where the code's values cannot be negative; the bounds of i64 and i128
-- are tests in the code and in the model.
pub mod Prelude
pub mod Json
pub mod Apart
pub mod Quantity
pub mod Scheduler
pub mod Auth
pub mod Network
pub mod Selectors
pub mod Patch
pub mod Proxy
pub mod Rollout
pub mod Storage
