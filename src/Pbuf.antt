-- ===== src/Pbuf.antt =====
-- Packet buffers (include/gabs/pbuf.h): the abstract view, the interface of the implementations,
-- the operations over that interface (pbuf/buf.c) and the basic implementation (pbuf/basic).
pub mod Seg
pub mod Bytes
pub mod Iface
pub mod Buf
pub mod Basic
pub mod NetBuf
pub mod Net
mod Examples
