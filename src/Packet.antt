-- ===== src/Packet.antt =====
-- connectivity-exporter/packet: the tracker of connections.
pub mod Connection
pub mod Account
pub mod Bytes
pub mod Ebpf
pub mod Tracker
pub mod Histogram
pub mod Slots
pub mod Sockets
pub mod Setup
pub mod Flags
pub mod Ports
pub mod Ring
pub mod Net
pub mod Cidr
pub mod Trie
pub mod Access
pub mod Query
