-- ===== src/Lib.antt =====
-- A model of brilliance-network, the network layer between the clients and the server of a game, and
-- the theorems that make it correct.
--
-- The parts. A client or a server is made over one of two transports: TCP with length-prefixed frames
-- (src/tokio), whose tasks hand messages to one another through queues, or UDP with channels
-- (src/renet). Both carry the messages of src/messages.rs, which mention the entities of
-- src/entities. A client puts the positions that it receives into a history buffer, finds the
-- server's clock, chooses how far behind the server to draw, and hides its corrections
-- (src/interpolation).
--
-- Interpolation/HistoryBuffer.antt is src/interpolation/history_buffer.rs: `push`, `sample` and
--   `cleanup_before` over the list of the `VecDeque`. An index out of range is `panic`. Its children
--   are about what these do: Order and Reach about the order of timestamps, Window about what is kept,
--   Search about the binary search, Around, Sample and Results about the answers of `sample`, Cleanup
--   about sampling after a cleanup.
-- Interpolation/AdaptiveDelay.antt is src/interpolation/adaptive_delay.rs; Bounds is about its limits,
--   and Estimate about the delay as a function of the intervals between the arrivals.
-- Interpolation/ClockSync.antt is src/interpolation/clock_sync.rs; Sorting, Window, Median and
--   NotANumber are about its window of samples.
-- Interpolation/VisualCorrection.antt is src/interpolation/visual_correction.rs over the traits of
--   src/interpolation/traits.rs, which a type of the client implements: a parameter.
-- Channel.antt holds the crates `flume` and `bincode` as parameters: queues with the laws of a FIFO,
--   and an encoder of messages.
-- Tokio/Frame.antt is src/tokio/mod.rs: `write_frame` and `read_frame` over byte streams that are
--   parameters; a writer has a buffer, and a flush puts what it holds on the stream. Tokio/Reader.antt is the loop that both reader tasks share, and Tokio/Writer.antt what
--   both writer tasks do with a message from their queue.
-- Tokio/Client.antt is src/tokio/client.rs: the handler of each frame, the reader task, a round of the
--   writer task, and the interface. Frames and Delivery are about the reader, Ping about the timer,
--   Interleaving, Conservation and Progress about the tasks and the calls of the interface in any
--   order.
-- Tokio/Connection.antt and Tokio/Server.antt are src/tokio/server.rs and the types of src/server.rs.
--   The flag, the time and the queues that the clones of a connection share are a `Cell` of the
--   server, found by its address. Entries is the table of connections; Accept, Removal, Due, Step
--   and History are about `step`, Connection/Frames and Connection/Delivery about the reader of a
--   connection, and EndToEnd about messages on their way from the server to a client.
-- Server.antt is src/server.rs, what a server tells of its connections.
-- Renet/Channels.antt is src/renet/channels.rs, src/renet/mod.rs and the choice of a channel in
--   src/renet/client.rs and src/renet/server.rs.
-- Renet/Run.antt is the loop `while let Some(..)`, and what a step yields that may panic.
-- Renet/Client.antt is src/renet/client.rs over the crates `renet` and `renet_netcode` as parameters.
--   Receiving and Channels are about what waits for it, Delivery and Errors about the ways in which
--   `step` ends.
-- Renet/Server.antt and Renet/Server/Step.antt are src/renet/server.rs over the same crates. As for TCP,
--   what the clones of a connection share is a `Cell`. Receiving and Delivery are about the messages of
--   clients, Events about those that come and go, Retain about those that are due, Invariant about the
--   table, Lifecycle and Panic about whole steps, and View and History about what one can know of the
--   table who reads what the server tells. Renet/EndToEnd.antt is about messages on their way from the
--   server to a client.
-- Resolve.antt is `resolve_connect_domain` of src/client.rs, with the resolver as a parameter.
-- Tokio/Start.antt and Renet/Start.antt are the `new` functions of the four clients and servers, over
--   the sockets as parameters, and the loop that accepts connections.
-- Entities.antt is src/entities, and Messages.antt is src/messages.rs.
-- Prelude.antt and its children pass the library on and hold what the parts share. Float.antt is the
--   interface of `f64` and `f32`: the theorems use of them that comparison is a total order away from
--   NaN, and nothing of arithmetic. Fixed.antt, Tokio/Memory.antt, Renet/Memory.antt and the files
--   that end in Tests run the definitions on examples and show that what the theorems ask for can hold.
--
-- Loops. The binary search takes the length of the list as fuel, and each round at least takes one from
-- the size of what is left. `read_loop` takes fuel for the frames of a stream: each frame takes four
-- bytes at least, so one more than the number of bytes is enough. `write_queued` takes fuel for the
-- messages in the queue, of which each round takes one. A `none` says that the fuel ran out.
-- `while_some` takes fuel for the messages of one channel or for the events that wait: the theorems ask
-- for more than there are, and `out_of_fuel` says that it ran out.
--
-- Not modelled: the sockets and the resolver themselves, the spawning of tasks, logging, and the programs
-- under examples, which are terminal input and output around the library. Of these, the server of
-- examples/chat and examples/consistency do not fit the library as it is. The function
-- `resolve_connect_domain_sync` runs `resolve_connect_domain` on a runtime of its own.
pub mod Prelude
pub mod Float
pub mod Fixed
pub mod Interpolation
pub mod Channel
pub mod Server
pub mod Tokio
pub mod Entities
pub mod Messages
pub mod Renet
pub mod Resolve
pub mod ResolveTests
pub mod MessageTests
