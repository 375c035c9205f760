-- ===== src/Codec.antt =====
-- binary.go: the opcode protocol. This file has the opcodes and flags; the children the rest.
pub mod Uvarint
pub mod Reader
pub mod Writer
pub mod Opcodes
pub mod Reads
pub mod Stable
pub mod Members
pub mod Client
pub mod Messages
pub mod Server
pub mod Records
mod Tests
