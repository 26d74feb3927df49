-- ===== src/Lib.antt =====
-- The verification library of ABSOLUTE-ZERO: the kernel, the communication bus, the compiler
-- and the runtime of the workflow scheduler, the request state manager, the execution engine, and the
-- health and the loading of the plugins.
--
-- Prelude: lists, dictionaries and Boolean tests over the native numbers and texts. A dictionary
--   of Python is an association list with its keys in order of insertion (Prelude/Dict).
-- Value: the values of JSON that envelopes, messages and snapshots are made of. There are no
--   fractional numbers. Value/Sorted is what they are after JSON has written the keys of every
--   object in order.
-- Kernel (src/kernel): Kernel/Config is config_view.py, Kernel/Default default_config.py,
--   Kernel/Ledger ledger.py, Kernel/Envelope envelope.py, Kernel/Gates gates.py, router.py and
--   admission.py. coordinator.py is in four files: Kernel/Record has the record of the log and what
--   a row of the table does to a request, Kernel/Telemetry what is published, Kernel/Coordinator
--   `handle` with all its handlers, Kernel/Recovery `recover`. Kernel/Steps is the coordinator as a
--   relation of steps, one for each record of the log, which the handlers refine
--   (Kernel/Coordinator/Handling). Kernel/Safety is a check of a transition table.
-- Communication (src/communication): Communication/Schema is schema.py, Communication/Bus bus.py,
--   with `deliver_with` in Communication/Bus/Push.
-- Ws (src/ws): Ws/Runtime is runtime.py, with the state of a run and `replay` in Ws/Runtime/State,
--   over the artifact of compiler.py. Ws/Compiler is the part of compiler.py that checks the edges
--   and orders the units.
-- Rsm (src/rsm): Rsm/Transitions, Rsm/Record, Rsm/Journal (with dedup.py), Rsm/Store, Rsm/Ingest,
--   Rsm/Telemetry, Rsm/Query, Rsm/Persistence and Rsm/Recovery are the files of these names;
--   reducers.py is Rsm/Reducers, with the schemas, the helpers and the reducers of tasks in its
--   children. Rsm/Requests is the pipeline seen at one request, as a machine of its own, and
--   Rsm/Requests/Steps the steps that a request can make, as a relation, with the calls of the
--   store and of the pipeline as a sequence.
-- Execution (src/execution): Execution is engine.py; Execution/Script is a run against a script of
--   attempts.
-- Prt (src/prt): Prt/Evidence is evidence.py and Prt/Health health.py, with the table of
--   lifecycle_legality.py. Prt/Health/Scratch has the calls of a manager as a sequence.
--   Prt/Loading is the tracker of load_policy.py, with the legality of lifecycle_legality.py.
--
-- The kernel publishes through a bus; in the model the bus is the parameter `Outside`, whose
-- `publish` may fail, so that the theorems on the kernel hold for every bus. The clock and `str` of
-- a value that is not a text are parameters too. An exception is a value: `raised` in `Outcome` of
-- the kernel and of the scheduler, `Refusal` on the bus; the state next to it is what was written
-- up to then. In a record of the log the request id "" and the state "" stand for `None`. The rows
-- of a snapshot are read at the types that default_config.py documents; ill-typed fields of a row
-- are not modelled, nor are writers that hold on to a snapshot and change it.
--
-- The bus takes its storage as a port: reading, writing, and JSON to and from bytes. A key of the
-- log is the pair of its topic and its number. The loop of `_seq_floor` has as fuel a number at
-- which the port has no entry; one round for each number below it is all that the loop can make.
-- The codec need not keep the order of the keys of an object, which `publish` writes sorted. The
-- handler of a push delivery works on a state of its own and on the bus, on which it may do
-- anything; a theorem says as a hypothesis what it asks of the handler. `max_queue_depth` and
-- `max_attempts` are not negative. The scheduler takes the bus, the binder and the engine as a
-- parameter, and its journal as a list of records, to which every append succeeds; the artifact is
-- one that the compiler has made, so that orders and edges name units.
--
-- The blocks of a record of the request state manager are records of what the reducers write, and
-- its tables have any hashable value for a key. The names of an event are texts or missing. Times
-- and windows are natural numbers, and a clock is the time that a call is given. The bus that the
-- telemetry is given is the list of what was published. The storage and the codec of JSON are a
-- port; what is asked of the codec is asked only of documents whose tables have texts for keys,
-- since JSON makes a text of any other.
--
-- The engine takes the process that is spawned, the storage and the bus as parameters; an attempt is
-- an exit code or a timeout, or an exception that leaves the runner and the run. The loop of Kahn
-- in the compiler has as fuel one more than the number of the units, since each round but the last
-- removes a unit.
--
-- The legality of a transition of health is a parameter, a function of the provider and the two
-- states; the overrides by which lifecycle_legality.py can change an answer later are modelled for
-- loading only.
-- A prior of reliability is of any type.
--
-- Not modelled: the rest of the plugin runtime (src/prt), the loop over the nodes of the compiler,
-- with the ids, groups and hashes, the other components of src, the in-memory bus of the kernel,
-- and the tests.
pub mod Communication
pub mod Execution
pub mod Kernel
pub mod Prelude
pub mod Prt
pub mod Rsm
pub mod Value
pub mod Ws
