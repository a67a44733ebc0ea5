-- ===== src/Wire.antt =====
-- The wire between the gateway and the server: frames, commands and replies as bytes.
-- src/protocol.cpp, include/vaultkv/util.h and the read side of src/server.cpp on one end,
-- gateway/tlv_client.py on the other.
pub mod Bytes
pub mod Frames
pub mod Replies
pub mod Commands
pub mod Connection
mod Examples
