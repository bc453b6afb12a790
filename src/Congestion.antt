-- ===== src/Congestion.antt =====
-- internal/congestion: the data structures of the BBR sender and the packet pacer.
pub mod RingBuffer
pub mod WindowedFilter
pub mod PacketQueue
pub mod Pacer
