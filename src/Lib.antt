-- ===== src/Lib.antt =====
-- Constella's core: who owns which account and which role, what the manager knows of its agents, what
-- it keeps of their samples, how it asks them and how it limits and adds up usage.
--
-- The program's parts and how they interact. Agents connect to the manager (packages/backend/src/
-- constella/app.py), which tells the cluster state (cluster.py) and the request broker (agent_rpc.py)
-- of every connection, sample, heartbeat and answer, and keeps recent samples in rings (highres.py,
-- performance_highres.py) and averages (performance_rollup.py). An agent's collector (collector.py)
-- asks a device sampler or a fallback, and the agent (agent.py) sends what it gets as JSON, less what
-- has not changed, of which the manager makes devices again (schema.py, cluster.py).
-- The lab extension (packages/lab/src/constella_lab) keeps users, account bindings and an audit log
-- in SQLite (store.py), decides who may make a request (auth.py), limits requests (api.py) and adds
-- up usage (activity_usage.py).
--
-- The files:
--   Prelude      texts, native lists, dicts by texts and by other keys, tests as Booleans and the
--                laws of Booleans, integers, a stable sort
--   Lab          LabStore of packages/lab/src/constella_lab/store.py: Lab/Data the rows and the
--                monad of a connection, Lab/Sql the statements with the schema's constraints,
--                Lab/Logins, Lab/Users and Lab/Bindings one function for each method, Lab/Calls a
--                sequence of calls. Lab/Steps, Lab/Statements and Lab/Rules carry a relation over
--                statements to one over calls; Lab/Exclusive, Lab/Admins with Lab/Governance,
--                Lab/History, Lab/Rollback with Lab/Atomic, and Lab/Refusals prove what the methods
--                keep; Lab/Listings the listing methods, Lab/Pages what they show. LabAuthMiddleware
--                of packages/lab/src/constella_lab/auth.py: Lab/Gate the code, Lab/Verdicts and
--                Lab/Access whom it lets through
--   Cluster      ClusterState and HistoryAccumulator of packages/backend/src/constella/cluster.py:
--                Cluster/Data, Cluster/History, Cluster/State for what writes, Cluster/Views for
--                what reads, and Cluster/Events for what agents and readers do, in any order
--   Highres      GpuSampleRing of packages/backend/src/constella/highres.py: Highres/Ring the code,
--                Highres/Positions its index arithmetic, Highres/Contents and Highres/Points the
--                ring as a list; HighresGpuCache: Highres/Cache, and Highres/Devices a device's
--                series
--   Gpm          NvidiaGpmSampleRing of packages/backend/src/constella/performance_highres.py:
--                Gpm/Ring what writes, Gpm/Window the window by bisection or scan, Gpm/Downsample
--                the points, Gpm/Cache the cache. Gpm/Bits, Gpm/Slots, Gpm/Cells, Gpm/Contents and
--                Gpm/Runs prove what a ring holds; Gpm/Bisect, Gpm/Slices, Gpm/Scan and Gpm/Series
--                what a window shows of it; Gpm/Sizes, Gpm/Extremes, Gpm/Kept and Gpm/Chosen what
--                downsampling keeps; Gpm/Held and Gpm/Answers what a query of the cache finds
--   Rollup       NvidiaGpmRollupBucket of packages/backend/src/constella/performance_rollup.py:
--                Rollup/Bucket the code, Rollup/Held what it holds of a metric, Rollup/Totals what
--                a row says
--   Collect      SnapshotCollector of packages/backend/src/constella/collector.py:
--                Collect/Collector the code, Collect/Handles and Collect/Runs the sampler's handle
--                and the settings over any calls, Collect/Retry the deadline
--   Wire         the devices of a sample. Wire/Json JSON values, Wire/Data and Wire/Encode the
--                dataclasses of packages/backend/src/constella/schema.py and their dicts,
--                Wire/Decode, Wire/Performances and Wire/Devices the decoder of
--                packages/backend/src/constella/cluster.py, Wire/Ids the ids it gives; Wire/Sound,
--                Wire/Parts, Wire/Accepted, Wire/Received and Wire/RoundTrip lead from the one to
--                the other, Wire/Filter is packages/backend/src/constella/process_filter.py with
--                the devices of a sample, Wire/Desktop and Wire/Tracked what is kept of them, and
--                Wire/Issues, Wire/Ranges and Wire/Typed from any value to readings in range.
--                Wire/Delta is SupportedMetricsDelta of packages/backend/src/constella/agent.py;
--                Wire/Sends, Wire/Recorded, Wire/Sources and Wire/Kept lead to the samples of a
--                connection in Wire/Exchange
--   Rpc          AgentRpcBroker of packages/backend/src/constella/agent_rpc.py: Rpc/Data what it
--                keeps, Rpc/Broker the methods, Rpc/Events the interleavings of connections,
--                requests, answers and tasks
--   Usage        SlidingWindowLimiter of packages/lab/src/constella_lab/api.py: Usage/Limiter, and
--                Usage/Granted with Usage/Window what it grants;
--                packages/lab/src/constella_lab/activity_usage.py: Usage/Spans the union,
--                Usage/Segments the sweep over cards, Usage/Owners whose account a row is.
--                Usage/Union is about the union, Usage/Events, Usage/Emit, Usage/Sweep and
--                Usage/Cards about the segments, Usage/EdgeSets, Usage/Edges, Usage/Shares and
--                Usage/Charges about the owners
--   Telemetry    the rules and filters of packages/backend/src/constella/telemetry.py
--
-- How the code is modelled. A method that writes its object returns the new state; a method that
-- raises returns the error as a value. A LabStore method is a function of the store to a result and
-- the store; `with self._con() as con` is `transaction`, which restores the store on an error. SQL
-- statements are list operations that raise where the schema's constraints are violated. Times are
-- whole microseconds, in place of floats; the clock's readings are arguments, one for a call where
-- not said otherwise, as are the ids that `uuid` makes. A text is the list of its code points, and
-- `strip` and `lower` act on ASCII. An object that is compared by identity, as a connection's id,
-- is a number. A future is its place in a list. The loops are structural recursions, but for the
-- bisection, on fuel as large as the ring's count (Gpm/Bisect), and the loop over buckets, which
-- gets one round for each sample.
--
-- Not modelled: reading and printing of JSON texts and of HTTP requests; the fields of a sample
-- beside its devices; rounded averages; the queries over SQLite of db.py and analytics.py, whose
-- logic is SQL text; the samplers, which call vendor libraries and /proc; the signatures of tokens,
-- for which `jwt.decode` is a parameter; processes, files and shell scripts; the terminal and the
-- web client. asyncio's scheduling appears as the order of events. `str` of a value that is not a
-- text and `float` of a text are arguments of the decoder.
pub mod Prelude
pub mod Cluster
pub mod Collect
pub mod Gpm
pub mod Highres
pub mod Lab
pub mod Rollup
pub mod Rpc
pub mod Telemetry
pub mod Usage
pub mod Wire
