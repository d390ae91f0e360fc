-- ===== src/Lib.antt =====
-- axiom-evi-apps: the node daemon axiom-init, the launcher axiom-run and the tools of the AXIOM
-- interconnect.
--
-- Parts and files. Prelude.antt: the names that all files share, with Boolean tests, lists over the
-- native numbers (Prelude/Lists) and the results of C code that may abort or become undefined
-- (Prelude/Status). Bits.antt: the masks, bit by bit.
--
-- Init/Session.antt: axiom-init/axiom-session/axiom_session.c. The mask `sessions` is the state
-- that is passed; next, release, used and axiom_session are the functions of the same names, and a
-- shift by the width of the word is `undefined`. 1 << 31 is read as bit 31.
--
-- Init/Spawn.antt: axiom-init/axiom-spawn/axiom_spawn.c. The state is the four slots of `info` and
-- the mask of the sessions, which axiom_spawn_req asks and gives back through the model of
-- axiom_session.c; a call of daemonize is noted as a Launch.
--
-- Run.antt: axiom-run. Run/Nodes.antt: my_axiom_send_raw and the count of the slaves of master.c.
-- Run/Exit.antt: the CMD_EXIT branch of master_receiver with the exit modes of axiom-run.h, and in
-- Run/Exit/Modes the options of axiom-run.c that choose them. Run/Emit.antt: output, emit and flush
-- of master.c. Run/Messages.antt: common.h and the types of axiom-run.h. Run/Rpc.antt: rpcfuncs.c.
-- Run/Slave.antt: slave.c: Run/Slave/Output the child's output, Run/Slave/Receive the master's
-- messages, Run/Slave/Services the threads and the wait for the child. Run/Options.antt: the
-- options of axiom-run.c's main and the words for the slaves, with the node masks in
-- Run/Options/Nodes. Run/Launch.antt: the rest of axiom-run.c. Run/Library.antt: axiom-run/lib,
-- which the application calls. Run/Sender.antt: master_sender and myexit of master.c;
-- Run/Sender/Stdin puts the thread together with the slaves' of Run/Slave/Receive. Run/Master.antt:
-- manage_master_services of master.c. Run/Receiver.antt: master_receiver of master.c, which calls
-- the master's parts: its state is the record Master, one step for each message received, and what
-- it does to the outside is a list of effects.
--
-- Init/Main.antt and Init/Tables.antt: main of axiom-init/axiom-init.c, and its functions that load
-- and save the routing table.
--
-- Init/Allocator.antt: axiom-init/axiom-allocator-l1/axiom_allocator_l1.c.
--
-- Init/Replies.antt: the dispatch of axiom-init/axiom-init.c, axiom-init/axiom-pong/axiom_pong.c
-- and axiom-init/axiom-traceroute-reply/axiom_traceroute_reply.c, each handler a function from the
-- message to what is sent; Init/Replies/Route puts the nodes together to a network.
--
-- Tools/Netperf.antt: axiom_netperf_reply and axnetperf_server of
-- axiom-netperf/axiom-netperf-server.c and axnetperf_raw_long of
-- axiom-netperf/axiom-netperf-client.c, with the counters as the state, and
-- axiom-init/axiom-netperf-reply/axiom_netperf_reply.c; rdma_failed has the step of its loop as an
-- argument, in which the two servers differ. Tools/Netperf/Rdma.antt: the RDMA test of the client,
-- with the memory of both sides as functions; a write with a token counts as arrived only after a
-- wait for its token.
--
-- Tools/Traceroute.antt: axiom-traceroute/axiom-traceroute.c; what it receives comes of
-- Init/Replies/Route, where a network of daemons answers it.
--
-- Tools/Ping.antt: axiom-ping/axiom-ping.c, the sender and the receiver as functions from what
-- happens to each; Tools/Ping/Report: main, which runs the sender first, since the receiver sees of
-- it only what is received, and the count of the messages after the join. Tools/Ping/Answers puts
-- it together with axiom_pong of Init/Replies.
--
-- Common/Strlist.antt: axiom_common_library/strlist.c. Common/Sched.antt:
-- axiom_common_library/schedfuncs.c, the option that the launcher encodes for its slaves. The
-- number formats of the C library are the record Numerals of Common/Sched/Reading.
--
-- Discovery.antt: axiom-init/axiom-discovery. Discovery/Protocol.antt: axiom_discovery_protocol.c,
-- the phase that every node runs, with the slave's part in Discovery/Protocol/Slave; the topology
-- and the routing registers are functions in the state that is passed, and messages are a list. The
-- other files are of axiom_routing.c. Discovery/Routing.antt: axiom_compute_routing_tables for the
-- row of one node, with the functions it calls. Discovery/Delivery.antt:
-- axiom_delivery_routing_tables, axiom_receive_routing_tables and axiom_wait_rt_received.
-- Discovery/Activation.antt: axiom_set_routing_table. Discovery/Node.antt: axiom_discovery_node.c,
-- which puts the phases together, and the loop of axiom_compute_routing_tables over the nodes.
--
-- Parameters. The NIC library (axiom_send_raw and the functions like it) enters as a function that
-- says which messages are accepted, the level 2 allocator as the record Allocator, the level 1
-- allocator as the record AllocatorL1, fwrite as a function from the bytes left to the count taken,
-- WIFEXITED and WEXITSTATUS as the record WaitStatus. The constants of the NIC headers are
-- parameters too. What is received is a list, in the order of arrival, and what system calls answer
-- is a script, one entry for each round of a loop.
--
-- Fuel. my_axiom_send_raw, the count of the slaves, the loop of start and __clz take 64, the bits
-- of the mask. output takes the count of the bytes, and the loop of emit over the lines the length
-- of the buffer, as each round takes a byte at least. raw_long and the RDMA loops take the total
-- and one more. The do-while of the routing tables takes the number of rounds as an argument.
--
-- Not modelled: logging and verbose printing; allocation, which is taken to succeed; the creation
-- of threads and processes; execvpe, daemonize, strlcpy and strlcat; the command line tools but
-- axiom-netperf with one thread, axiom-ping and axiom-traceroute; tests and packaging.
pub mod Prelude
pub mod Bits
pub mod Init
pub mod Run
pub mod Discovery
pub mod Tools
pub mod Common
