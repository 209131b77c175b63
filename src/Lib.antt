-- ===== src/Lib.antt =====
-- The P4Runtime front end of T4P4S: a gRPC server (server/, utils/) that takes requests of P4Runtime
-- controllers and turns them into control messages of a T4P4S switch.
--
-- The program is one process with one device. A controller sets a pipeline configuration: its P4Info is
-- loaded into a map from ids to names and arguments, and its digests into a digest map. Writes of table
-- entries look their ids up in that map and call the data plane's callback with a message of names and
-- bytes; reads of counters ask the data plane for its arrays. The data plane sends digests, which go to
-- the stream that arbitrated last.
--
--   Base        lists, options, bytes, integers, and runs that end in a value or a fault
--   Hex         the hexadecimal output of C++ streams; Dump is convbytes of server/device_mgr.c
--   Uint128     server/uint128.h, server/uint128.cpp: the class Uint128 and its output operator; Output
--               is about the operator on a stream with its formatting state, Numbers about the type
--   IdMap       utils/map.h, utils/map.c: map_t, element_t, argument_t and their functions; Probe, Lookup
--               and Add are about probing, Walk about the rounds of a lookup, Capacity and Bucket about
--               room, View about what lookups tell, Args about the arguments of an element, Destroy
--               about free
--   Proto       the fields of the P4Runtime messages and of grpc::Status that the code uses
--   Messages    messages.h of T4P4S, as far as server/device_mgr.c fills it in
--   DigestMap   digest_map of server/device_mgr.h
--   ConfigFile  struct ConfigFile of server/device_mgr.c; Handles is about its file handle
--   Device      device_mgr_t, the globals of server/device_mgr.c, dev_mgr_init, dev_mgr_init_with_t4p4s
--   Table       table_insert, table_modify, table_delete, table_write and the _gen functions; Ends and
--               Outcome say which insertions come to an end, Refuses which are refused, Lookups
--               what they take from the id map
--   Counter     counter_write, counter_read and counter_read_one; Inside and Outcome say which reads
--               come to an end, Refuses which are refused, Appends what the others add
--   Pipeline    dev_mgr_set_pipeline_config and dev_mgr_get_pipeline_config; Replay is about many
--               configurations, AddDigests about the digests of one, Order about the order inside
--               one, Overrun about argument lists that do not fit
--   Manager     P4ErrorReporter, dev_mgr_write and dev_mgr_read; Merge is about updates of two writes
--               that come mixed, Ends about requests that end the process
--   Digests     dev_mgr_send_digest
--   Server      server/pi_server.cc: Write, Read, SetForwardingPipelineConfig,
--               GetForwardingPipelineConfig and StreamChannel, and in Reach the server as a step relation
--               over all of them and the data plane's digests. Spec is what the server promises, told
--               from its History, and Refines and Answers hold the two against one another;
--               Solicited and Delivers are about which digests go out, Told and Rearranged about
--               histories that differ in their order, Live about digests on the way to a stream,
--               Takes about a configuration that comes after others, Installs and Installed about
--               an entry on its way to the data plane, Reported about counters on their way back,
--               Ends about what the process survives, Subscribes about a digest on its way to a
--               controller, Channel about whole calls of StreamChannel, Alike about what requests
--               see of the id map
--   MapDriver   utils/test_map.c: main over the id map; Holds says what the map holds then, Prints
--               what is looked up and freed
--   Process     server/pi_server.cc: PIGrpcServerRunAddrGnmi to PIGrpcServerCleanup, and the phases that
--               they go through
--   ExampleServer  server/test_server.c: main and what it gives for the counters; Reads is about what
--               such a server answers to reads
--   Tests       the statements at concrete values
--
-- Each C function is a function of the state that it reads to its result and the state that it leaves,
-- under the C function's name. A null pointer that is used, an array that is overrun or read out of
-- bounds, and an object that is used when it is gone are faults, with which the process ends. The map of
-- utils/map.c is a function from slots to elements; a pointer to an element is the number of its slot.
--
-- Loops over slots run on the number of slots that are left: the 4096 of the map less the key's
-- home, which is at most 4092, so the bound of the C loop and the recursion are the same. The loop
-- of read_config runs on the number of whole buffers, that of counter_read on the larger of the two
-- sizes, that of dev_mgr_send_digest on the number of fields that the digest says. All other loops
-- run over a list of a message.
--
-- Parameters: the sizes of the arrays in messages.h and the byte order of the host (Platform), what
-- tmpfile, fwrite and fseek answer (Disk), the data plane's callback, by its address, and the
-- arrays of its counters (CounterRead), the clock, and the port that gRPC binds, if it can start a
-- server. malloc and strdup are taken to succeed. The protobuf classes are records of the fields
-- that the code uses; a field of 32 or 64 bits is a natural number.
--
-- Not modelled: logging; two handlers that run inside one another on the shared device, which is a
-- data race in C++ (the steps of Server.Reach are whole calls, and single messages of a stream);
-- server/config.h and inc/device_mgr.h, which hold the macros of the build and declarations only;
-- the generator of T4P4S's control plane, the ONOS application, and the build files.
pub mod Base
pub mod Hex
pub mod Uint128
pub mod IdMap
pub mod Proto
pub mod Messages
pub mod DigestMap
pub mod ConfigFile
pub mod Device
pub mod Table
pub mod Counter
pub mod Pipeline
pub mod Digests
pub mod Manager
pub mod Server
pub mod Process
pub mod MapDriver
pub mod ExampleServer
pub mod Tests
