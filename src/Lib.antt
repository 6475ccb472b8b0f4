-- ===== src/Lib.antt =====
-- The NATS module of Qore (module-nats): the classes of src/*.cpp, which wrap the objects of the NATS C
-- client for Qore programs. Each wrapper checks its pointer, checks for cancellation, calls the C client
-- and turns the answer into a Qore value or an exception; long waits are made of short ones, so that a
-- cancelled thread stops soon.
--
-- The C client and the Qore runtime are not part of the program: what they answer is a parameter, the
-- record `Client` of each component, and each answer may depend on all calls made before. A state
-- carries the trace of these calls, newest first, in which messages and entries are named by numbers
-- that stand for their pointers. Statuses, exceptions and results are in Runtime.
--
-- - Common: tests on numbers, integers, list lemmas. Value: the Qore values that methods take. Hash:
--   Qore hashes as the conversions write and read them.
-- - Runtime: natsStatus, the exception sink, nats_error (src/NatsHelper.cpp).
-- - Message, Time: nats_msg_to_hash and the date conversion (src/NatsHelper.cpp).
-- - Poll: the polling loop that nextMsg, fetch, waitForDrainCompletion, the watcher's next and flush
--   share. It runs on fuel; Poll/Ends has the measure that makes the fuel enough (the time left, and
--   what the environment allows besides), Poll/Bounds adds up the waits, and Poll/Ensures has the rule
--   by which a loop establishes what its method promises.
-- - Subscription: QoreNatsSubscription (src/QoreNatsSubscription.cpp): Client is the state and the
--   destructor, Receive the polling methods, Acks the acknowledgements and subscription calls, Queries
--   the getters; Memory, Life, Left, Waits, Ends and LastMsg have the proofs.
-- - KeyValue: QoreNatsKVStore and QoreNatsKVWatcher (src/QoreNatsKVStore.cpp,
--   src/QoreNatsKVWatcher.cpp): Entry, Client, Store and Watcher are the code; Memory, Watching and
--   Revisions have the proofs.
-- - ReplyMux: the replies to requests (replyHandler, request and struct ReplyMux of
--   src/QoreNatsConnection.cpp and .h). System has the interleavings: each step is one section under
--   the mux's lock. Wait is the timed wait of a request; its fuel, one round for each nanosecond of the
--   timeout, is enough since each wait takes time, as long as the deadline fits the clock's 64 bits.
-- - Connection: QoreNatsConnection (src/QoreNatsConnection.cpp): Client and Calls are publish,
--   publishMsg, subscribe, drain, close, flush and the like; Callbacks is the reference counting of
--   NatsCallbackContext under any interleaving with the C client's callbacks. Setup, Options and
--   Construct are the constructors with configureOptions, setupCallbacks, setupDialer and connect, as
--   lists of actions of which the first that fails ends the constructor; Permitted has the rules by
--   which their traces are judged. Registered is about setupCallbacks, Forked about the use of a
--   connection in a forked child. Info has the getters and what the C client allocates for them; its record Client
--   answers one call.
-- - JetStream: QoreNatsJetStream (src/QoreNatsJetStream.cpp). Parts, Stream and Consumer are the
--   configurations as hashes and the informations; Client is the state, the calls of the C client and
--   the forms that the methods share; Streams, Publish, Open and Account are the methods. Memory and
--   Sessions, RoundTrip, ConsumerTrip and Acks have the proofs. A time that becomes nanoseconds, and
--   a number that becomes an enumeration, are within the range of the C type.
-- - Micro: the endpoints of a microservice (src/QoreNatsMicroService.cpp, src/QoreNatsMicroGroup.cpp):
--   Handlers is the life of the handler contexts, Construct the constructor, Endpoint the methods that
--   add endpoints, Report the methods that stop a service and ask for its information and statistics;
--   Readings and Handlers/Released have proofs.
-- - Url, Dialer: parse_nats_url, check_nats_network_access and NatsSandboxDialer (src/NatsHelper.cpp).
--
-- An exception keeps its format and arguments; the rendered text is not modelled. Machine integers
-- are exact where no operation overflows; the conversions between int64 and uint64_t are written out.
-- Not modelled: the destructor, the groups and the request handler's conversions of a microservice,
-- createMicroService, the sockets of the dialer, the generated bindings (src/*.qpp) and the
-- registration of the module.
pub mod Common
pub mod Connection
pub mod Dialer
pub mod Hash
pub mod JetStream
pub mod KeyValue
pub mod Message
pub mod Micro
pub mod Poll
pub mod ReplyMux
pub mod Runtime
pub mod Subscription
pub mod Tests
pub mod Time
pub mod Url
pub mod Value
