-- ===== src/Lib.antt =====
-- Verification of libevrpc, an RPC library on libev whose servers and clients find each other through
-- a cluster of centers that elect a leader.
--
-- The program has a communication layer (util/rpc_communication.cpp under src/), which cuts messages
-- into frames of 516 bytes and puts them together again; the center (src/rpc_center), a process that
-- elects a leader among its peers and answers centers, clients and servers over that layer; the load
-- balancer of the center, a ring of hashes on which the leader places servers; and small utilities
-- (src/util). A center's server thread hands each connection to CenterProcessor, which answers it
-- or puts the message into the queue of the election thread or the leader thread; these call
-- ProcessCenterData for each message.
--
-- The files:
--   Base and Base/*: lists, byte texts, hash maps as association lists, ordered maps as sorted lists,
--     signed integers, and results of code that may meet undefined behaviour (Run).
--   Util/Hash: BKDRHash and MurMurHash2, src/util/rpc_util.cpp. Util/Thread: src/util/thread.h.
--     Util/Locks: src/util/pthread_mutex.h and pthread_rwlock.h; Guarded has threads under their guards,
--     interleaved in small steps, and the same methods one after the other.
--   Communication: MetaData, RpcSend, RpcRecv, RpcSendTo and RpcRecvFrom. Codec is about one frame,
--     RoundTrip and Blocks about the loops, Transfer about whole messages, Faults about error paths.
--   Proto: the messages and enumerations of src/center_proto/*.proto.
--   LoadBalancer: ConsistentHashLoadBalancer, src/rpc_center/load_balancer. Laws is about placement and
--     lookup on the ring, Replication about the ring that a follower takes over.
--   RpcCenter: the state of src/rpc_center/rpc_center.{h,cpp}, one record, and its small operations.
--     Election has LeaderPredicate and UpdateOCStatus, Election/Rounds InquiryCenters,
--     ProposalLeaderElection and the start of an election; Ring the map of centers and the walks over it;
--     Process has ProcessCenterData, whose child Pings is about the reports of a follower; Requests has
--     CenterProcessor and ReporterProcessor; Clock the logical clock in small steps; Boot has the
--     constructor, InitRpcCenter and StartCenter; NeverLeads the runs of a center as a step relation.
--     Threads has the loops of the election, the leader and the reporter thread, Server what the server
--     thread does with a connection, Stop has StopCenter, WaitCenter and the start of the reporter.
--   Communication/Connect: NonBlockMode, TcpListen, TcpConnect, UdpServerInit, UdpClientInit, Accept and
--     GetPeerAddr.
--   LibevThreadPool: the worker pool of src/rpc_server/libev_thread_pool.cpp with its queues in memory.
--     Life has Start, Destroy and Wait. Queue shows the linked queue against a list, Free is about the
--     free list, Spread about dispatch, Refused about refused calls, Drain about the end of a thread.
--     Fifos is the pool without its memory, and its children show that the memory implements it, with
--     the calls that are running.
--   ConnectionTimerManager: src/rpc_server/connection_timer_manager.cpp. Buffers is about the indices,
--     Crawl about what reaches the wheel, Wheel about its rounds.
--   RpcServer: src/rpc_server/rpc_server.cpp: RegisteService, RpcCall, RpcProcessor, RpcReader, RpcWriter.
--     Methods is about the table, Processor about one call, Calls about a call on its way from the
--     client, Turns about the order of the workers; Workers has what the threads of the pools run, Threads
--     Start and Wait.
--   DispatchThread: the watchers of src/rpc_server/dispatch_thread.cpp; Lost is about whose item is freed.
--     RpcCenter/Server has those of src/rpc_center/center_server_thread.cpp.
--   RpcClient: src/rpc_client/rpc_client.cpp. Controller: the three controllers. Channel:
--     src/rpc_client/rpc_channel.cpp; Pending has the calls in threads, Call has CallMethod;
--     Attempts is about the retry loop, Async and Order about asynchronous calls, Awaited about the
--     others. Distributed is about the mode with a center, Threads has the threads of a client.
--   Heartbeat: the heartbeats. Client: src/rpc_client/center_client_heartbeat.cpp. Cluster:
--     src/rpc_server/center_cluster_heartbeat.cpp. Ping: src/rpc_client/rpc_heartbeat_client.cpp and
--     src/rpc_server/rpc_heartbeat_server.cpp.
--   ConfigParser: src/config_parser/config_parser.cpp.
--
-- A call runs through Channel/Call.call_method, rpc_send and rpc_recv to DispatchThread.process_cb, whose
-- callback is RpcServer.rpc_call; that queues it in the worker pool, and run_worker runs rpc_processor.
-- The retry loop of a call recurses on fuel, and one attempt is enough with the results of TcpConnect.
-- The calls of a worker pool begin and end in steps of their own in LibevThreadPool/Fifos, so that a
-- restart may meet a running call; libev_processor is both steps with nothing in between. The messages
-- are below 2^31 bytes: the overflow of block numbers beyond that is left out.
--
-- Operations are functions from a state to a state and a result. Names are those of the source in
-- lower case: RpcCenter::UpdateOCStatus is update_oc_status. Methods that take a lock run as one step,
-- but in Util/Locks/Guarded and RpcCenter/Clock.
-- The operating system, the sockets and protobuf are arguments: the record Env holds what one call
-- meets (TcpConnect, whether RpcSend works, what RpcRecv returns, whether a message serializes and
-- how it parses). What a center sends and closes is recorded in the field `effects`.
--
-- Loops over containers are structural recursion; counted loops recurse on the rounds that are left, so
-- no fuel is needed but for that and the digits of a descriptor, where 10 rounds hold every int32_t; the receive
-- loop recurses on the results of recv(), and `waiting` stands for a loop that waits for the next one.
-- uint32_t, unsigned long and int32_t wrap at their sizes; time_t is a number without a bound.
--
-- Not modelled: logging, sleeping, memory that is only allocated and freed, the vendored ini parser
-- (src/config_parser/iniparser.cpp), the generated protobuf code, the samples, the unit tests,
-- destructors that only free, and the event loops of libev.
pub mod Base
pub mod Util
pub mod Communication
pub mod Proto
pub mod LoadBalancer
pub mod RpcCenter
pub mod LibevThreadPool
pub mod ConnectionTimerManager
pub mod RpcServer
pub mod RpcClient
pub mod Heartbeat
pub mod DispatchThread
pub mod ConfigParser
