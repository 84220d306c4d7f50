-- ===== src/Lib.antt =====
-- The Kafka client library: its wire protocol, its connections and their pool, its cluster
-- metadata, its consumers and its producers.
--
-- The program speaks the Kafka protocol of version 0.8. The package proto encodes requests and decodes
-- responses: serialization.go has the numbers, strings, byte slices and arrays; errors.go names the
-- error numbers; messages.go has the message sets with their checksums and compression, the fourteen
-- requests and responses, and the frames by which they follow one another on a connection; snappy.go
-- undoes the framing of snappy-java. The root package keeps connections to brokers
-- (connection_pool.go), metadata, consumers and producers on top of it. The package kafkatest has a mock
-- server that clients are tested with.
--
-- Which module models which code:
--   Base         shared names, Boolean tests, lists by native numbers, and Base.Program: Go code on one
--                mutable object as a function from the object to its result and the object after it, or
--                a panic
--   Wire         proto/serialization.go and proto/errors.go. BigEndian has binary.BigEndian, Source has
--                io.Reader (the bytes left and the error at their end), io.ReadFull and io.LimitReader;
--                Decoder and Encoder have one function per method (DecodeInt16 is decode_int16). Reads
--                and Writes have the rules that compose decoders and encoders; Limits has wrong input.
--   MessageSet   Message, ComputeCrc, writeMessageSet, slicewriter and readMessageSet of
--                proto/messages.go, and snappyDecode of proto/snappy.go. Crc is hash/crc32. Termination is
--                about the loop of snappyDecode.
--   Messages     one module per request or response of proto/messages.go, with `read` for its Read
--                function, `bytes` for Bytes and `send` for WriteTo; its child Layout has the layout on
--                the wire and the round trip. Frame has what they share, Duration the times, SetField
--                the message sets as fields, Envelope ReadReq and ReadResp; Counts has wrong lengths.
--   Pool         the backend of connection_pool.go: GetIdleConnection, GetConnection, getNewConnection,
--                removeConnection, Idle, NumOpenConnections and Close; Limit has all that can happen to
--                a backend as a relation, with the steps of Idle interleaved.
--                Addresses has the connectionPool, with InitializeAddrs, getBackend,
--                GetConnectionByAddr, GetIdleConnection and Idle.
--   Cluster      cluster.go. Metadata has the maps of nodes, endpoints and partition counts, cache and
--                the lookups; Refresh has RefreshMetadata as the steps of any number of callers, which
--                Epoch and Since follow. Pools has
--                connection_cache.go with NewCluster, Fetch and the pools that cache changes, Caches
--                metadata_cache.go with NewBroker of broker.go; Kept is about both.
--   Connection   connection.go. Outcome has the values and errors that calls return, Send has Close,
--                sendRequest and sendRequestHelper, Calls the seven requests; Answers and Exchanges follow
--                a request to its response on the stream, Trimmed the loops of Fetch.
--   Broker       broker.go. Consumer has consume, Consume, ConsumeBatch and SeekToLatest, with the trimming
--                of connection.go's Fetch; Endpoint has getLeaderEndpoint and Leader leaderConnection, on
--                the metadata of Cluster and the pool of Pool. Attempts has the retry loop that Requests
--                (offset, consumer, fetch) and Coordinator (commit, Offset, the search for the
--                coordinator) share; Producing has produce and Produce. Known is
--                about getLeaderEndpoint, Settling and Released about the connections taken.
--   Producer     distributing_producer.go. Line has partitionData with its channel and the goroutines of
--                reEnqueue, Manager the partitionManager, Distribute the error-averse producer; Handing
--                has all that can happen to a manager as a relation.
--   Server       kafkatest/server.go. Store has the Server with NewServer, Addr, Reset, ResetTopic, Close
--                and AddMessages; Handlers the requests to produce, to fetch and for metadata, Offsets
--                those for offsets, commits and the coordinator; Serving has handleClient, from the bytes
--                of the requests to those of the responses. Stored is about what it gives back. Service
--                has the requests and replies as values and the answer to each, which Wired and Conversation
--                compare with handleClient on their bytes.
--   Examples     concrete inputs.
--
-- Numbers: a Go integer of w bits is its bit pattern, a natural number below 2 ^ w; the wrap-around of
-- its operations is written out, and a signed test looks at the top bit. The theorems on layouts ask
-- that each number fits its field. A string and a byte slice are lists of bytes, and a byte slice may be
-- nil. Panics are results.
--
-- Loops: readMessageSet runs on fuel, one more than the bytes it may read, and each round takes at least
-- one; the chunks of snappyDecode run on one round for each byte. A compressed message holds a set, so
-- readMessageSet calls itself: `depth` bounds that nesting. A depth of two is enough for the sets of the
-- client's own making, and one where no message is compressed. The retry loops of broker.go go down the
-- tries that are left.
--
-- Parameters: the codecs of compress/gzip and github.com/golang/snappy are a record of functions
-- (Codecs). Where it matters they are asked to decode what they encoded, and snappy's output not to
-- begin with the magic bytes of snappy-java (CodecLaws). The outcomes of dialling a broker, of fetching
-- metadata and messages, and what wakes a waiting GetConnection, are inputs; so are, in the retry loops of
-- broker.go, the outcomes of each try, and in a connection what its stream holds and the random numbers.
--
-- Not modelled: the logger (log.go), the docker cluster of the tests (integration), and of kafkatest the
-- scripted broker of broker.go and the functions Run, MustSpawn and ServeHTTP of server.go. How long a
-- backoff or a timer lasts is left out: a suspended partition may come back at any time. The time-out of
-- RefreshMetadata lets its caller go early, and is left out; in NewCluster a refresh that timed out has no
-- effect. The operations of a backend, of a cache and of the mock server that hold a mutex are one step each;
-- Idle, which holds none, is a step function, and idle its run without others between; debug counters only feed the log.
pub mod Base
pub mod Wire
pub mod MessageSet
pub mod Messages
pub mod Pool
pub mod Cluster
pub mod Broker
pub mod Connection
pub mod Producer
pub mod Server
pub mod Examples
