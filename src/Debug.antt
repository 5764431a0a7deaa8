-- ===== src/Debug.antt =====
-- The debugger's stub: src/debug/gdb_server.h and src/debug/gdb_server.cpp. Characters are their
-- codes and strings are lists of them; the socket's set-up is not modelled.
pub mod Hex
pub mod Digits
pub mod Packet
pub mod Server
pub mod Client
pub mod Protocol
pub mod Sessions
pub mod Ends
pub mod Registers
pub mod Memory
pub mod Bytes
pub mod Patches
pub mod Breakpoints
pub mod Transfers
