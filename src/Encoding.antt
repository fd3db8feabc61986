-- ===== src/Encoding.antt =====
-- pkg/p2p/wire/encoding: the serialisation of integers, CompactSize numbers, byte strings and
-- fixed-size values. `Buffer` is Go's bytes.Buffer, over which the callers run these functions, and
-- `Reader` its bytes.Reader, from which transactions are read.
pub mod Buffer
pub mod Codec
pub mod Tagged
pub mod Integers
pub mod VarInt
pub mod VarData
pub mod Reader
pub mod MiscData
pub mod Kept
