-- ===== src/Mbuf.antt =====
-- src/common/xio_mbuf.h, with xio_write_tlv and xio_read_tlv of src/common/xio_utils.c: a cursor
-- over a message buffer that holds records of type, length and value (TLV).
-- A pointer is its 64-bit address, and the memory around the buffer is the list of the bytes from
-- the address `base` on. Pointer sums and differences are modulo 2^64. An `int` that comes from a
-- `size_t` keeps its low 32 bits and is extended by its sign.
-- A field of a header is stored in network byte order (htonl, htonll on a little-endian host).
mod Cursor
pub mod Tlv
pub mod Io
pub mod Safety
pub mod Reading
pub mod RoundTrip
pub mod LengthSign
mod Tests
unfoldable pub use Cursor.*
