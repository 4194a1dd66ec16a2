-- ===== src/Packet/Sockets/Order.antt =====
-- `htons` of connectivity-exporter/packet/bpf.go: the two byte orders.
use connectivity_exporter.Prelude.{ℕ, ◌^◌, ◌<◌, ◌≡◌, arith}
use connectivity_exporter.Packet.Sockets.{put_uint16, htons}

-- The order of the host comes back from that of the network.
htons-htons : (i : ℕ) → i < 2 ^ 16 → htons (htons i) ≡ i
unfolding htons put_uint16
htons-htons i small = omega arith
