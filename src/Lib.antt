-- ===== src/Lib.antt =====
-- A model of OpenSOME/IP, a SOME/IP stack (include/ and src/ of the repository), with the theorems
-- that make its parts correct.
--
-- The parts, from the bottom up, and the files that model them:
--   Base            shared names, lists over the native numbers, bytes in network order, bits, xor,
--                   and `std::unordered_map` as an association list
--   Result          include/common/result.h, src/common/result.cpp: result codes and their names
--   Types           include/someip/types.h, src/someip/types.cpp: identifiers (`MessageId`,
--                   `RequestId`), message types and return codes as bytes
--   E2e.Header      src/e2e/e2e_header.cpp: the twelve bytes of protection data (`E2EHeader`)
--   E2e.Crc         src/e2e/e2e_crc.cpp: the three checksums; the table of the CRC-32 is built as
--                   `init_crc32_table` builds it
--   E2e.Profile     src/e2e/e2e_profiles/standard_profile.cpp: `BasicE2EProfile::protect` and
--                   `validate`, with the two maps of the profile object as state and the clock as
--                   an argument
--   E2e.Registry    src/e2e/e2e_profile_registry.cpp and src/e2e/e2e_protection.cpp: the registered
--                   profiles and the choice of one, whose virtual methods are arguments
--   Message         include/someip/message.h, src/someip/message.cpp: `Message`, its setters and
--                   moves, `serialize`, `deserialize` and `is_valid`
--   Session         include/core/session_manager.h, src/core/session_manager.cpp: `SessionManager`
--   Tp              include/tp/tp_types.h; Tp.Segmenter is src/tp/tp_segmenter.cpp, Tp.Reassembler is
--                   src/tp/tp_reassembler.cpp with the buffer of tp_types.h, Tp.Manager is
--                   src/tp/tp_manager.cpp, with its transfers as a map
--   Serialization   include/serialization/serializer.h, src/serialization/serializer.cpp: `Serializer`
--                   (Writer) and `Deserializer` (Reader)
--   Sd              include/sd, src/sd: Sd.Entries, Sd.Options and Sd.Messages are src/sd/sd_message.cpp,
--                   Sd.Server with Sd.Requests is src/sd/sd_server.cpp, Sd.Client
--                   with Sd.Arrivals is src/sd/sd_client.cpp; Sd.Service is what the two share
--   Rpc             include/rpc, src/rpc: Rpc.Client is src/rpc/rpc_client.cpp, Rpc.Server is
--                   src/rpc/rpc_server.cpp
--   Transport       src/transport/tcp_transport.cpp: sending, receiving and framing (Transport.Tcp)
--   Events          include/events, src/events: Events.Publisher is src/events/event_publisher.cpp,
--                   Events.Subscriber is src/events/event_subscriber.cpp
--
-- How the parts meet: `Message.serialize` puts the header of E2e.Header between the fixed header and
-- the payload, and `Message.deserialize` looks for it there; E2e.Profile computes a checksum of
-- E2e.Crc over a message and stores it in such a header; Tp.Segmenter cuts up the payload of a
-- Message and uses `Message.serialize` for the header of the first segment, and Tp.Reassembler
-- consumes the segments; Tp.Manager holds one of each. Rpc.Client takes a session of Session for each
-- call. The client and the server of Sd, those of Rpc and of Events put what they say
-- into a Message, which Transport sends as its bytes. Serialization stands alone.
--
-- How the code is rendered. A `uintN_t` is a native number, with its wrap (`% 2 ^ N`) written where
-- the code can overflow; a byte vector is a list. An object is a record and a method a function from
-- the record, and what it is called with, to the results and the new record. A method that holds a
-- mutex from its first line to its return is one step, so that a history of calls is a list. A clock
-- reading is an argument. A `std::optional` is an Option, an error code a value. A callback is a number,
-- and a call of it is listed with what it is given; a message handed to the transport is listed with
-- its receiver, and where the code looks at what comes of it, that is an argument. What a socket call
-- returns is an argument too, and so are the functions that read and print addresses (`Inet`). An
-- undefined read, an exception that leaves a method, and a thread that waits for itself are values of
-- their own. The host is little-endian where `htons` swaps a port.
--
-- Loops and fuel. Loops over a vector recur on the list; the padding, table and flag loops recur on
-- their count, and the loop of `SdMessage::deserialize` on the hundred rounds that the code itself
-- allows. Two loops of the code can go on for ever and take a fuel, with `none` for a loop that is
-- still running: the search for a free session id, for which 65535 rounds are enough while an id is
-- free (and one round for a client of Rpc, up to its last session), and the loop of
-- `create_multi_segments`, for which as many rounds as the payload has bytes are enough up to 65535
-- bytes. Past these bounds no fuel is enough, and there are theorems to that effect.
--
-- Not modelled: `Message::to_string` and other diagnostic text; the time stamp and retransmission
-- count of a segment, which nothing reads; setting up and connecting sockets, the server mode of the
-- TCP transport and the UDP transport (src/transport);
-- statistics that are always empty. A floating-point value is its bit pattern.
mod Base
pub mod Result
pub mod Types
pub mod E2e
pub mod Message
pub mod Session
pub mod Tp
pub mod Serialization
pub mod Sd
pub mod Rpc
pub mod Transport
pub mod Events
