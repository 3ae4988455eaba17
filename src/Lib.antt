-- ===== src/Lib.antt =====
-- Verification of theSix, a cache of six rungs (L0 to L5) above an authority (L6).
--
-- The program. A caller's key is framed with its tenant (src/key.rs) and hashed to an address
-- (src/integrity.rs). The control plane (src/control/cachelito.rs) keeps one entry for an address: its
-- state, generation, rung, owner, lifetime and commit intent, and never a value. A write prepares an
-- intent there, stores the value on a rung (src/tier/), and then commits or aborts the intent. A
-- policy (src/policy.rs) chooses the rung. The manager (src/manager.rs) composes these into the
-- operations that callers await; a registry counts the failures of each rung, and a telemetry sink
-- (src/telemetry.rs) is given a record of each access.
--
-- The files.
--   Base            what all files share: numbers, lists, sorting, tests, the errors of src/error.rs.
--   Integrity       src/integrity.rs: digests, fingerprints, addresses.
--   Tier            src/tier/mod.rs: the rungs and their codes.
--   Tier/FixedTierStub  src/tier/fixed_tier_stub.rs: the storage of a rung. Scan is about its probes,
--                   Values about what a read returns.
--   Tier/ShardedStub  src/tier/sharded_stub.rs and the rungs of src/tier/l0.rs to l5.rs, which are one
--                   implementation of the interface of a rung.
--   Tier/Registry   TierRegistry of src/tier/mod.rs; Circuit has its circuit breaker.
--   Tier/Interface  the trait CacheTier of src/tier/trait.rs, as a record of operations over the states
--                   of a rung: the parameter of the manager.
--   Entry           src/entry.rs: states, intents, tokens.
--   Key             src/key.rs: frames of tenants. Policy: src/policy.rs. Pool: src/pool.rs.
--   Control         src/control/cachelito.rs:
--     ControlEntry  the fields of a slot and their accessors.
--     Handlers      what each operation does to the entry that it has locked.
--     Shard         find_slot, find_empty, find_or_create_entry and find_entry on a table of slots;
--                   below it the probes and the table as a map.
--     Cachelito     the operations of the plane: the address, its shard, the entry, the handler. Lookup
--                   and Calls read the plane as one map, Outcomes says what each call returns.
--     Maintenance   plane_stats, sweep_expired and stale_intents.
--     History       calls as data, and sequences of them; Step has the refinement to the map and the
--                   invariant, Generations what is refused after a generation is passed.
--     TwoPhase, Claims, Eviction   the protocol of prepare, commit and abort, and who owns an entry.
--   Recovery        src/continuity.rs, resolve_intent of src/control/cachelito.rs and
--                   recover_older_than of src/manager.rs. Unblocked says what a pass leaves, Report
--                   what it counts.
--   Continuity      src/continuity.rs: the states of a rung. Telemetry: src/telemetry.rs, the records;
--                   Ring and Percentiles.
--   Manager         src/manager.rs. The file has the shared state, the tasks and what an await does.
--     Rungs         the caller's context, the framed key, the bound rungs, the recorded accesses.
--     Reads, Evictions, Writes, Moves, Populate, Refresh   get and exists; the evictions of set; set;
--                   promote, demote, invalidate and remove; get_or_fetch; refresh.
--     Maintains     what every step of a task keeps, the whole task keeps: one rule for each way to
--                   build a task, and one lemma for each operation.
--     Drops, Returns   what a task leaves where it is dropped and where it returns, by the same kind
--                   of rules.
--     Operations    the operations as data, for the theorems on all of them: Plane, Authority and
--                   Refusals.
--   Governor        plan_tick of src/governor/mod.rs; Plan says what a plan may propose. Moves has the
--                   legs of apply_plan that move entries; Census is src/governor/census.rs.
--   Tests           runs and instances at concrete values.
--
-- How the code is modelled. The `Mutex` of a shard is held from the start of an operation to its end,
-- so an operation is a function from a plane to a plane and its result, and an execution of many
-- threads is a sequence of operations. An atomic field is its number; the counter of generations wraps
-- at 2 ^ 64. A clock is an argument; an operation that reads it more than once is given one reading.
-- An `Instant` is its nanoseconds since the process's anchor, and 0 means none, as in the code. Waking
-- the waiters of an entry is counted in a field of it. A loop is recursion on the number of its
-- attempts that are left, which the code bounds by the length of the table, so no fuel is needed.
--
-- An operation of the manager is a task: a function from the shared state and a schedule to how the
-- task ends, the state and the rest of the schedule. The schedule says of each await what other tasks
-- and the clock do before the future works and after it, and whether it completes, outlasts the bound
-- on the wait, or the whole task is dropped there; in the last two the future may have worked before
-- that. Between two awaits a task runs alone on the state, although other threads may run there: the
-- calls of the plane are atomic, and a theorem on a task holds for the interleavings at awaits. A guard
-- that is armed releases what it holds where the task raises or is dropped. The loops of set and of
-- get_or_fetch recurse on the attempts that the code allows them (64 races, 17 passes, 8 evictions, 3
-- attempts to populate, 8 rounds), and end as the code does when these are used up.
--
-- Not modelled. A lock that is poisoned; formatting; the `f64` ratios, where a policy reads only
-- whether an availability is above 0 and the governor whether a rung is under pressure; the
-- backends, which are behind the interface of a rung; the other legs of the governor's
-- apply_plan; the capabilities; the notification of a waiter, which a schedule decides. Threads that
-- run between two calls of one recovery pass, or between two awaits of a task of the manager.
pub mod Base
pub mod Integrity
pub mod Tier
pub mod Entry
pub mod Control
pub mod Key
pub mod Policy
pub mod Pool
pub mod Recovery
pub mod Continuity
pub mod Telemetry
pub mod Manager
pub mod Governor
pub mod Tests
