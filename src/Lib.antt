-- ===== src/Lib.antt =====
-- Verification library of CrossPool, a serving system that co-locates several SGLang models.
--
-- The program. A daemon registers the processes of a deployment, agrees with them on a Fabric
-- generation (the set of processes that execute together), and shares the memory of the attention
-- devices among the models. Participants report their phases; the daemon answers each report and moves
-- the generation when all have reached a barrier. A capacity policy reads demands and completions of
-- the ranks from a shared channel, and publishes quotas. The two parts meet in the control plane, which
-- creates a generation with its policy and runs both under one lock.
--
-- The files, with the code that they follow (paths from the root of the repository):
-- - Prelude: names of the libraries, Boolean tests, lists over the native numbers, results (errors of
--   src/xpool/service/errors.py), actions on an object, and dictionaries as association lists.
-- - Identity: the identities that the daemon compares (src/xpool/utils/procs.py,
--   src/xpool/service/daemon/registration.py, src/xpool/fabric.py).
-- - Fabric/Phase: `FabricGenerationPhase.allows` and `FabricParticipantPhase.allows` of
--   src/xpool/fabric.py.
-- - Fabric/State, Fabric/Report, Fabric/Controller: `FabricGenerationState` and `FabricController` of
--   src/xpool/service/daemon/fabric.py. `accept_report` is `record_participant` on an installed
--   generation, `depart` is `instance_departed`, `initialize` is `record_initialized`,
--   `quiesce_generation` and `abort_generation` are `quiesce` and `abort`.
-- - Fabric/Layout: `FabricPePlacement.validate_order` of src/xpool/fabric.py.
-- - Fabric/History: the creation of a generation and the calls that the requests and the watchdog of
--   src/xpool/service/daemon/control.py make on it.
-- - Fabric/Frame, Fabric/Noted, Fabric/Outcomes: how a report can end. Fabric/Edges, Fabric/Barrier,
--   Fabric/InStep, Fabric/Serving, Fabric/Participants, Fabric/Failures: proofs about histories.
-- - Capacity/State, Accounting, Freeze, Replies, Retire, Borrowers, Donors, Step: `CapacityPolicy` of
--   src/xpool/service/daemon/ecs.py, in the order of its methods.
-- - Capacity/Charge, Growth, Bounds, Sound, Retiring, Lenders, Growing, Funding, Attempts, Stepping:
--   proofs about the permissions that the policy has given out.
-- - Quota/Profile, Quota/Ledger: the pool profiles and the `MemoryQuota` of src/xpool/ecs.py, with
--   src/xpool/utils/integer.py and `align_up` of src/xpool/utils/__init__.py.
-- - Transport/Broker: `TransportBroker` of src/xpool/service/daemon/transport.py; Transport/Uses: what
--   may be done with it, in any order.
-- - Registration/Table: `CommonRegistration` and `RegistrationTable` of
--   src/xpool/service/daemon/registration.py. An object has a number for the identity that `is`
--   compares, and a key, a contract and their equality are parameters, since there are three kinds.
-- - Fabric/Stopping: how a generation that drains comes to an end. Fabric/Tables, Fabric/Passed and
--   Fabric/Progress: when a report moves the generation.
-- - Storage/Geometry, Storage/Pages, Storage/Backing: `KvVmmLayout` and `KvVmmBacking` of
--   src/xpool/integrations/sglang/ecs/vmm.py. `make_layout` is `__post_init__`, `span_start` and
--   `span_end` are `bundle_spans`, and `new_backing` is `__init__`. Their child modules are proofs:
--   Geometry/Span and Geometry/Checked, Pages/Cover and Pages/Empty about intervals; Backing/Books,
--   Backing/Charges, Backing/Uses and Backing/Opened about charges; Backing/Rollback, Backing/Frame,
--   Backing/Outcome, Backing/Closed and Backing/Mapped about how a call can end. Storage/Division has the rounding.
-- - Storage/Allocator: `ElasticPageAllocator` and the retirements of its two children in
--   src/xpool/integrations/sglang/ecs/allocator.py.
-- - Storage/Pool, Storage/Reclaim, Storage/Reference: `SglangElasticContextState` of
--   src/xpool/integrations/sglang/ecs/state.py: allocation, reclaim, and the search of
--   `reference_config`. Storage/Plans: proofs about plans. Storage/Managed:
--   the changes of a component; Storage/Served, Turnover, Withdraw, Lifecycle: proofs about them.
-- - Rank/Reconciler, Rank/Demand: `CapacityReconciler` of
--   src/xpool/integrations/sglang/ecs/capacity.py, in a part that adopts quotas and a part that
--   publishes demands; Rank/Adoption: proofs about the first.
-- - Examples: runs of the models, and every theorem at a concrete state.
--
-- How the code is modelled. A method that raises returns the error and the object as it then is, since
-- Python keeps what was written before. A dictionary is an association list; the rows of the policy's
-- lists, all indexed by the group, are one list of records. Times are numbers. A message that the
-- daemon composes is a constructor with the phases in it. Loops run over lists, so that no fuel is
-- needed, but for the search of `reference_config`, whose fuel is the number of candidates and one: it
-- loses a candidate in each round. A tensor of page numbers is a list, and an operation on it works
-- number by number. The answers of the device driver, the free lists of SGLang's allocators, the
-- evictions of its cache, and the vote of the ranks are parameters. Byte counts and sequences are unbounded, as in Python; the native channel, which refuses a
-- sequence of more than 32 bits or a quota of more than 64, is not modelled. A subtraction is written
-- so that it is exact: `new - old` is kept as its two ends, and what is free as budget and spent bytes.
-- `int(total * utilization)` is a function of the policy's surroundings, because it is a product of
-- floats. What the channel and the clock show to a step is its argument, and what it publishes is
-- appended to a list in its state.
--
-- Not modelled: logging, locks, HTTP, the conditions under which the watchdog makes its calls (a history
-- may have them in any order), the projections of the registrations, the placement of FFN layers, the
-- agents, the tensors behind the storage, the hooks into SGLang with the journal of an allocation, the
-- collective reclaim of a rank, and the C++ and CUDA code.
mod Prelude
pub mod Identity
pub mod Fabric
pub mod Capacity
pub mod Quota
pub mod Transport
pub mod Storage
pub mod Rank
pub mod Registration
mod Examples
