-- ===== src/Serialization.antt =====
-- include/serialization/serializer.h and src/serialization/serializer.cpp: the writer and the reader
-- of payloads. A signed or a floating-point value stands as its bit pattern, which the conversions
-- between the types of one width and the `memcpy`s keep; a string is the list of its bytes. The
-- positions stay below 2 ^ 64.
pub mod Writer
pub mod Reader
pub mod RoundTrip
pub mod Arrays
pub mod Position
mod Tests
