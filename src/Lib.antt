-- ===== src/Lib.antt =====
-- A remote procedure call framework over ZooKeeper, with a cache service on top of it: a model of
-- its code and proofs of what the code does.
--
-- The parts and how they interact. A server (src/Zrpcprovider.cc) reads its address from a
-- configuration file (src/Zrpcconfig.cc), registers a node for each method of its services in
-- ZooKeeper (src/zookeeperutil.cc) and answers requests. A client (src/Zrpcchannel.cc) looks the
-- address up, connects, sends one framed request (src/Zrpcheader.pb.cc) and reads one answer, with
-- a controller (src/Zrpccontroller.cc) that carries timeout and failure. The heartbeat manager
-- (src/ZrpcHeartbeat.cc) probes registered services and drops the dead ones. The cache service
-- (example/callee/CacheService.cc) is a service that such a server offers, and so is the user
-- service (example/callee/UserService.cc), which is itself a client of the cache. The integrated
-- client (example/caller/integrated_client.cc) uses both, and so does the load client
-- (example/caller/Zclient.cc), from ten threads. A server process (example/callee/Zserver.cc)
-- offers both services.
--
-- - Base, Table, Decimal: the native numbers, byte strings, 64-bit patterns, std::unordered_map as
--   an association list (its order stands for the iteration order), std::to_string and atoi.
-- - Threads: threads over one shared state, for the load client and the logging test. A program is
--   a tree of atomic accesses, and a schedule is the list of the threads' numbers in the order of
--   their accesses. Threads.Counting is a rule for totals, Threads.Endings for the ends of the
--   threads; Threads.RoundRobin is a schedule, and Threads.Alone takes one thread from start to
--   end.
-- - Messages: the messages of example/user.proto as records.
-- - Controller: src/Zrpccontroller.cc, one function per method; Controller.Lifecycle is about
--   histories of calls.
-- - Config: src/Zrpcconfig.cc, from Trim to LoadConfigFile; the loop runs on fuel, the length of
--   the file, since each round takes at least one byte. Config.Trim, Config.Lines and Config.Files
--   hold the proofs.
-- - Application: Init of src/Zrpcapplication.cc, with getopt as a parameter; the global
--   configuration is passed along. Application.Singleton: GetInstance and deleteInstance with the
--   heap.
-- - Wire: the protobuf runtime as a record of operations (Runtime) with its laws (RuntimeLaws);
--   Wire.Header is src/Zrpcheader.pb.cc, whose parser runs on fuel, the length of its input;
--   Wire.Header.Merge and Wire.Header.Sizes are about MergeFrom, CopyFrom and ByteSizeLong;
--   Wire.Frame is the frame that CallMethod builds; Wire.Varint is a concrete runtime with an
--   instance of the laws.
-- - ZkClient: src/zookeeperutil.cc over an abstract server (ZooKeeper, ZooKeeperLaws);
--   ZkClient.Model is a concrete server. An exit of the process and a write past a buffer are
--   results of Run.
-- - Heartbeat: src/ZrpcHeartbeat.cc; RegisterService, UnregisterService, IsServiceAvailable,
--   TriggerHeartbeat and a pass of the worker hold the mutex; Start, Stop and SetHeartbeatCallback
--   do not, and are taken as one step each all the same, so that a history of the threads is a
--   list of events (Heartbeat.History). Heartbeat.Pass and Heartbeat.Liveness hold the proofs.
-- - Provider: src/Zrpcprovider.cc; OnMessage is a function from the bytes that have arrived to a
--   Reaction. Provider.Dispatch is about requests, Provider.Registration about the nodes.
-- - Channel: src/Zrpcchannel.cc; Channel.Call is CallMethod, with every early return, and
--   Channel.Address, Channel.Connecting, Channel.Reports, Channel.Reuse, Channel.Closed,
--   Channel.Silent and Channel.Thrown are about it; Channel.Discovery and Channel.Served go from
--   the registration at the server to the call.
-- - Cache: example/callee/CacheService.cc; a handler is a function of the state and of the
--   readings of the clock. Cache.View describes each handler by what a reader sees, Cache.Requests
--   has histories of requests, Cache.Refinement compares the whole responses of the service with
--   an abstract cache, Cache.Batch, Cache.Counting and Cache.Stats are about BatchGet, the
--   counters and GetStats.
-- - User: example/callee/UserService.cc over the stub of the cache service (Stub, with the laws
--   StubLaws of User.Answers); User.Keys is about the cache keys, User.Sums about the sum, and
--   User.Model puts the cache of Cache behind the stub.
-- - Client: example/caller/integrated_client.cc over the stubs of both services; Client.Answers is
--   about what it is told, Client.Sessions is its main with ShowCacheStats, Client.Model puts User
--   and Cache behind it. Client.Channels has the stubs over the client's two channels, with any
--   network; Client.Channels.First and Client.Channels.Used are about the first and the later
--   calls over them, Client.Refused about calls that all fail, and Client.Channels.Told about
--   main.
-- - Server: example/callee/Zserver.cc with the services of example/user.proto, from the bytes of a
--   request to those of its response, over a parameter for the reading and writing of messages
--   (Codec, with CodecLaws of Server.Requests). Server.Requests is about its requests,
--   Server.Nodes about its nodes in ZooKeeper, Server.Calls about a client's call; Server.Model is
--   a concrete codec.
-- - LoadTest: example/caller/Zclient.cc, ten threads that call both services and count.
--   LoadTest.Totals, with LoadTest.Counts, and LoadTest.Endings are about any services,
--   LoadTest.Register about Register without a controller, LoadTest.Modes about the choice of the
--   test; LoadTest.Model puts User and Cache behind the stubs. LoadTest.Linked has the default
--   test over its own channels, with LoadTest.Refused.
-- - Logger: src/include/ZrpcLogger.h over glog, whose calls are a list of events. Logger.Once is
--   about a process's calls, Logger.Concurrent is test_concurrent_log.cpp.
-- - The modules whose names end in Runs hold runs of the code at concrete inputs.
--
-- Bounds. Times are nanoseconds of the steady clock and do not wrap. The cache's counters wrap at
-- 2 ^ 64, the port at 2 ^ 16, sizes in a frame and the user service's sum at 2 ^ 32. The numbers
-- of a request are those that fit its fields, of 32 bits (Server.Requests.InRange). The counters
-- of the load client and of the logging test are 32-bit patterns. A descriptor of a channel is
-- open after events as Channel.Closed says; what else in the process opens descriptors, and may
-- take the number of a closed one, is left out. A thread makes a call or a change of a counter in
-- one access, and the end of the process by a call shows at the next turn of its thread, and the
-- number of turns that ends it is stated with the theorem that says so. The stubs of User and
-- Client come back from every call; that CallMethod may throw, and with it end the process, is in
-- Channel.Thrown, in the flag of Client.Channels and in LoadTest. Fuel is always the length of the
-- input, of which every round takes at least one byte.
--
-- Not modelled: logging and printing but for the calls that ZrpcLogger makes of glog, elapsed
-- times and rates, the muduo and ZooKeeper libraries, the protobuf runtime and the generated
-- classes but for the request header and the choice of a handler, threads inside one step,
-- allocation failures, and the connection pool src/include/ZrpcConnectionPool.h, which is declared
-- and has no code.
pub mod Base
pub mod Table
pub mod Threads
pub mod Messages
pub mod Decimal
pub mod Controller
pub mod Config
pub mod Application
pub mod Wire
pub mod ZkClient
pub mod Heartbeat
pub mod Provider
pub mod Channel
pub mod Cache
pub mod User
pub mod Client
pub mod Server
pub mod LoadTest
pub mod Logger
