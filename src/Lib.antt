-- ===== src/Lib.antt =====
-- A verification development of the broker's core: topic filters and the two topic trees,
-- sessions and their acknowledgement queues, the messages on a connection and what a service
-- does with them, and the ring buffer between a socket and the message loop.
--
-- How the parts interact. A connection's receiver cuts the messages out of what the connection
-- delivers (service/readwrite.go) and hands each to its service (service/process.go), which
-- answers on the connection and passes PUBLISH messages on through a channel of uploads; the
-- server keeps the services by device (service/server.go); an older path goes through a ring
-- buffer (service/buffer.go). Messages that have to be acknowledged wait in the queues of the
-- client's session (sessions/ackqueue.go, sessions/session.go), which the store finds by client
-- identifier (sessions/memprovider.go). The topics provider (topics/memtopics.go) stands beside
-- them, since the broker grants every subscription without it: a tree of subscribers and a tree
-- of retained messages, both with one node for each topic level, which nextTopicLevel cuts off
-- the topic.
--
-- Files and the code they model.
--  - Topics/Level.antt: nextTopicLevel and getGroupName of topics/memtopics.go. Topics are lists
--   of byte values. Its children say what the function returns (Split), which levels it lets
--   through (Legal) and which topics it takes apart (Accept).
--  - Topics/Subscriber.antt: equal, matchQos, and the branches of sinsert and sremove at the
--   last level. The struct snode without its children is the record Holdings. A Go interface
--   value is nil, a function, or a dynamic type with a content that can be compared.
--  - Topics/Tree.antt: newSNode, sinsert, sremove and smatch on the type SNode. Paths gives the
--   abstract view, what is held at a list of levels; Insert, Remove and Match relate the methods
--   to it, and Found serves publications.
--  - Topics/Retained.antt: newRNode, rinsert, rremove, rmatch and allRetained on the type RNode,
--   with children in the same order.
--  - Topics/Provider.antt: memTopics with Subscribe, Unsubscribe, Subscribers, Retain, Retained
--   and Close. Topics/Manager.antt: TopicsProvider, its registry and Manager of
--   topics/topics.go.
--  - Sessions/AckQueue.antt and Sessions/AckQueue/Methods.antt: Ackqueue and BytesPool of
--   sessions/ackqueue.go; a queue's ring is a list of optional messages, and a run-time panic of
--   the code (a nil pointer, an index out of range, a failed type assertion, a nil map) is the
--   outcome `panicked`. Order relates the ring to the list of the messages that wait, Finished,
--   Enqueued, Grown, Cleared and Answered give Acked, insert, grow, a tick of Clear and Ack on
--   that list; Places relates the map of packet identifiers to it, and Open says which methods
--   leave a queue open.
--  - Sessions/Session.antt: Session of sessions/session.go. Sessions/Provider.antt: memProvider
--   of sessions/memprovider.go and the registry of sessions/sessions.go. Sessions/Manager.antt:
--   SessionsProvider and Manager of sessions/sessions.go, over any provider of the record
--   SessionsProvider, which says what the server relies on and which memProvider fills.
--  - Service/Buffer.antt and Service/Buffer/Reading.antt: buffer of service/buffer.go. A call is
--   one atomic step; a call that has to wait returns `blocks`, and ReadFrom and WriteTo are
--   given as one round of their loop.
--  - Service/Buffer/Fifo.antt: the ring as a queue of bytes. Copied is about ringCopy, Slice
--   about the bytes that are peeked, Written and Taken about one call of either side, Placed
--   about what is put into the space that WriteWait hands out, Filled about when a round of
--   ReadFrom takes what it is given, and Trace about any sequence of calls.
--  - Service/SendRecv.antt: peekMessageSize, peekMessage, readMessage and writeMessage of
--   service/sendrecv.go and the loop processor of service/process.go, over rings. Peeked
--   compares the header with that of the newer path, Served says what processor does with whole
--   messages, Sent what writeMessage leaves, Overread what readMessage takes; Loops is receiver,
--   with the loop of ReadFrom of service/buffer.go, and its bytes on their way to processor;
--   Sender is sender, with the loop of WriteTo.
--  - Service/Wire.antt: getPeekMessageSize and getPeekMessage of service/readwrite.go,
--   getMessageBuffer of service/misc.go; a reader is the bytes it will still deliver and the
--   error after them. Size relates them to the MQTT encoding of a length, Frame to whole
--   messages.
--  - Service/State.antt: the struct service of service/service.go and sendData of
--   service/readwrite.go. Service/Publish.antt: onComplete, publish, subscribe, unsubscribe and
--   ping of service/service.go.
--  - Service/Process.antt: processIncoming of service/process.go and all that it calls. Steps
--   and Acknowledged take a message from publish to its PUBACK, Steady says what every handler
--   keeps if its steps do, with which Same, Bounded and Limits bound the heartbeats and the
--   uploads and Alive and Sending keep a service live, Refused is about PUBLISH.
--  - Service/Receive.antt: receiverData of service/readwrite.go as a loop over what the
--   connection delivers. Stream says what it does with whole messages, Ends that it ends.
--  - Service/Server.antt: checkConfiguration, deleteMapAndLogout and Close of service/server.go,
--   newStopConnect of service/service.go and exceptionDisconnect of service/readwrite.go. A call
--   that panics leaves the state it had reached beside the outcome `panicked`. Leaving says what
--   becomes of a service that leaves, Kept and Sound what the server keeps then.
--   Service/Server/Accept.antt: handleConnection and getSession of service/server.go; Admitted
--   and Replaced are about a device that connects twice, Connected and Reached about all that a
--   server can come to, with the messages that its services handle (Handled) and the uploads
--   that are pushed (Pushed). Service/Server/Push.antt: a round of PushMsg of service/biz.go.
--   Service/Server/Listen.antt: listenAndServe of service/server.go and the accept loop of
--   service/tls.go, over what Accept returns.
--  - Service/Connection.antt: connectivityStateManager of service/connection.go.
--  - Config.antt: NewOptions of config/config.go, on the values that the configuration library
--   returns.
--  - Toy.antt: small message libraries at which the theorems are tried.
--  - Message.antt: what the code calls of the message library, as records that the definitions
--   take as parameters.
--  - Prelude.antt: Boolean tests, lists, maps as association lists, and outcomes that may panic.
--
-- Bounds and fuel. sinsert, sremove, rinsert and rremove recurse on the rest of the topic, which
-- the model gives as fuel; the length of the topic is enough, since each call of nextTopicLevel
-- takes at least one byte from a topic that is not empty. smatch and rmatch recurse on the tree
-- and need none. acked_loop and the loops of Clear take the number of waiting messages, which
-- each round lowers by one. The receiving loop takes a round for each byte that the connection
-- delivers and one more, and every round reads two bytes at least. The length of a message is at
-- most four bytes of seven bits, which the loops of getPeekMessageSize and peekMessageSize count
-- down. processor takes a round for each byte in its ring and one more, and readMessage one for
-- each byte of the message. The loop of ReadFrom takes a round for each byte that the connection
-- delivers and one more, that of WriteTo one for each byte in the ring and one more. Positions
-- of the ring buffer are natural numbers: the code's 64-bit counters overflow only after 2^63
-- bytes. A Go map is an association list that keeps one entry for each key; Go's order of
-- iteration is left open in the code, and the model's is that of insertion.
--
-- Not modelled. The message codec (a copy of another project under utils/surgemq), whose calls
-- are parameters; updateHeartbeat of service/sendrecv.go, which only moves a deadline; how the
-- listeners and TLS are prepared, and the websockets; logging and process start. The mutexes:
-- each modelled call that takes one holds it throughout, and is one step. Ackqueue's Stop takes
-- none, and is one step only where it does not overlap with another method. The pool of buffers
-- hands out what it was given; a sync.Pool may also let buffers go at any time, which is another
-- pool before a call. Within the ring buffer a producer and a consumer run at once; the model
-- interleaves whole calls only. The member of a subscription group that receives a message is
-- random in the code and a parameter here.
pub mod Prelude
pub mod Config
pub mod Message
pub mod Topics
pub mod Toy
pub mod Sessions
pub mod Service
