-- ===== src/Lib.antt =====
-- zenoh-perf measures zenoh and its lower layers: programs that send pings and print the time until
-- the pong, programs that count messages, sinks that speak just enough of zenoh's protocol, and a
-- pair of programs that measure the protocol's overhead. Each program is one file under
-- <crate>/src/bin, and a model here has the name of the program or of what several programs share:
--   Latency/Parallel     the non-blocking loop of t_ping, r_ping and z_ping as a step relation
--   Latency/Parallel/Ledger   what that loop promises, as a ledger of numbered pings
--   Latency/Sequential   the blocking loop of t_ping, r_ping, t_query_thr and r_query_thr, with its barrier
--   Latency/Sequential/Cycle   what that loop promises, as a cycle of numbered turns;
--                        Latency/Sequential/Completion has its way to the next line,
--                        Stopping its end at a sleep without a duration
--   Latency/Progress     what leads both loops with a barrier to their next line
--   Latency/TPing        latency/src/bin/t_ping.rs, which fills the two
--   Latency/RPing        latency/src/bin/r_ping.rs, likewise
--   Latency/ZPing        latency/src/bin/z_ping.rs; Latency/Session has its key expressions
--   Latency/Pong         latency/src/bin/t_pong.rs, r_pong.rs and z_pong.rs
--   Latency/Columns      the payload column of t_ping's lines
--   Latency/Programs     main of t_ping.rs, t_pong.rs, t_pub_delay.rs and t_sub_delay.rs; below it
--                        Starting has what t_ping comes to, Delays the other two together
--   Latency/RouterPrograms   main of latency/src/bin/r_ping.rs and r_pong.rs
--   Latency/SessionPrograms   main of latency/src/bin/z_ping.rs and z_pong.rs
--   Latency/Payload, Latency/Report   the bytes of a ping, the line of a pong
--   Latency/Delay        a message of latency/src/bin/t_pub_delay.rs and its line by t_sub_delay.rs;
--                        Latency/Delay/Turns has all turns
--   Wire/Frame           zsend! and zrecv! of throughput/src/bin/t_sink_tcp.rs
--   Throughput/Sink      throughput/src/bin/t_sink_tcp.rs and t_sink_udp.rs; Serving below
--                        each has the whole of its handle_client, and Throughput/Sink/Tcp/Accepting
--                        the accept loop
--   Throughput/Router    throughput/src/bin/t_router_thr.rs
--   Throughput/Counter, Subscriber, Callbacks   the counters of t_sub_thr.rs, t_pubsub_thr.rs and
--                        r_sub_thr.rs in throughput/src/bin
--   Throughput/Publisher throughput/src/bin/t_pub_thr.rs, and the same loop of t_pubsub_thr.rs
--   Query                the handlers of query/src/bin/t_eval.rs, t_query.rs and t_query_thr.rs
--   Query/Router         the callbacks of r_eval.rs, r_query.rs and r_query_thr.rs there
--   Query/Asking         the loop of t_query and r_query as a step relation, with their one barrier;
--                        Query/Asking/Completion has its way to the next line
--   Query/Asking/Exchange   what that loop promises, as an exchange of numbered queries; Steps and
--                        Refinement below it have the steps of the loop in it, Times when they are
--   Query/Latency        t_query and r_query, which fill it
--   Query/Throughput     t_query_thr and r_query_thr, which fill Latency/Sequential
--   Query/Rates          the two counters of t_query_thr and r_query_thr;
--                        Query/Throughput/Measured has them with the loop
--   Query/TransportPrograms   main of t_eval.rs, t_query.rs and t_query_thr.rs; Asked and Counted below
--                        it have t_eval together with each of the other two
--   Query/Report         the lines of the programs with two counters
--   Query/SessionPrograms, RouterPrograms   main of the six programs of Query/Session, and of r_eval.rs
--                        and r_query.rs
--   Query/Session        z_query.rs, z_eval.rs, z_query_thr.rs there, and zn_query.rs, zn_eval.rs,
--                        zn_query_thr.rs
--   Throughput/Session   r_pub_thr.rs, z_put_thr.rs and z_sub_thr.rs in throughput/src/bin
--   Throughput/Pipeline  t_pub_thr, t_router_thr and t_sub_thr together
--   Throughput/Monitor   the tasks of t_sub_thr.rs, r_sub_thr.rs and z_sub_thr.rs that print the rates
--   Throughput/Programs, SessionPrograms, RouterPrograms   main of t_pub_thr.rs and t_pubsub_thr.rs, of
--                        z_put_thr.rs and z_sub_thr.rs, and of r_pub_thr.rs and r_sub_thr.rs; Counted
--                        below the last two has what one counts of the other
--   Throughput/TransportPrograms   main of t_pub_thr.rs, t_sub_thr.rs, t_pubsub_thr.rs and
--                        t_router_thr.rs from their options; Counted, Meeting and Routed below it
--                        have those that meet
--   Throughput/Rate      the rate that a monitoring task prints
--   Startup              the configuration that the programs over router and session build from
--                        their options; Startup/Properties has those of the older query programs,
--                        Startup/Manager the programs over the transport layer, and Startup/Dial the
--                        dialling of t_pubsub_thr.rs
--   Overhead/Capture, Overhead/Analyze   overhead/src/bin/zn_analyze.rs
--   Overhead/Sender      overhead/src/bin/zn_overhead.rs; Overhead/Measured has the two together
-- Base, Bytes, Duration, Pending and Proto hold what these share: lists and numbers, byte strings,
-- which numbers are durations, the hash map of the pings, and the zenoh values that the programs
-- build. Tests has runs and examples.
--
-- How the code is read. Arithmetic is that of a release build (cargo build --release): a usize or
-- u64 wraps modulo 2^64, a u128 modulo 2^128, and subtraction adds the modulus before it. A panic
-- is the value `panic` of `Outcome`, with a reason. `HashMap` is an association list behind `get`,
-- `insert` and `remove`. The `f64` option `interval` is only printed and slept for: it is its bit
-- pattern, and Duration has which of these `Duration::from_secs_f64` takes; a program ends at a
-- sleep that has no duration. Threads are steps: each statement of a loop that touches shared
-- state is a step, a handler runs in one step up to the barrier that it waits at (its map is
-- locked, and one thread delivers to it), and `Barrier::new(2)` is a meeting of the two threads.
-- The network of a ping reflects, as the pong programs do: it hands over what was sent, in any
-- order, and may lose it; the losses are counted. An atomic counter is the sequence of what
-- reaches it.
--
-- zenoh's own code is a parameter: `ZBufIo` (its buffers and their reader) and `Codec` (its
-- encoding of transport messages, which is read back whatever follows it), `SlabLib` for the crate
-- slab, and `decode` for the crate hex. In Startup the parser of endpoints, the default
-- configuration, the file of one and the outcome of each dial are parameters. `ManagerLib` is the
-- manager of transports and its builder, by what a call on them comes to, and `PropertiesLib` the
-- map of properties with its laws. Which of the replies that were sent the stream of a session's
-- query has is an argument. The runtimes and sessions that are opened with these, clap's parsing
-- of options, logging and how long a sleep takes are not modelled, nor are the binding of the
-- sinks' sockets and the programs for other middleware under comparison. A program that runs for
-- ever is modelled for any number of its turns, or any sequence of what reaches it. The printed
-- rates take the operations of f64 as a parameter, with the laws of IEEE 754 that they need.
--
-- The loops of zn_analyze take fuel. `read_transport_messages` gives the outer one a turn for each
-- byte and one more, and a turn takes two bytes; the inner one gets a turn for each byte of its
-- buffer, and a message is never empty. The loop of zn_overhead gets as many turns as it computes.
-- The theorems on these loops state that the fuel is enough. The loop that dials takes fuel for its
-- calls, and is done within it if the other side answers within it. The loops of the pings have no fuel:
-- the theorems hold for every number of steps below 2^64, before which the count cannot wrap.
pub mod Base
pub mod Bytes
pub mod Duration
pub mod Latency
pub mod Overhead
pub mod Pending
pub mod Proto
pub mod Query
pub mod Startup
pub mod Tests
pub mod Throughput
pub mod Wire
