-- ===== src/Packet/Sockets.antt =====
-- connectivity-exporter/packet/bpf.go: the sockets of `ebpfAttachment`.
pub mod Closing
pub mod Order
use connectivity_exporter.Prelude.{
  ℕ, zero, suc, ◌+◌, ◌*◌, ◌/◌, ◌%◌, ◌^◌, ltb, Bool, List, [], ◌∷◌, ◌++◌, Option, none, some,
  replicate, if◌then◌else◌,
}
use connectivity_exporter.Prelude.Results.{Error, Reply, value, failure}
use connectivity_exporter.Packet.Bytes.{set_at}

-- What the kernel answers for the interface of an index.
pub record Answers : Type 0 where
  pub socket : ℕ → Reply ℕ
  pub bind : ℕ → Option Error

-- An entry of `socketFD`: a descriptor, or -1 once it is closed.
pub data SocketFd : Type 0 where
  descriptor : ℕ → SocketFd
  minus_one : SocketFd

-- `len(attachment.socketFD)`
abbrev pub socket_count : ℕ
socket_count = 32

-- `binary.BigEndian.PutUint16`: the bytes of a uint16, the high one first.
unfoldable pub put_uint16 : ℕ → ℕ × ℕ
put_uint16 i = (i / 2 ^ 8 % 2 ^ 8, i % 2 ^ 8)

-- They are read as the uint16 that they are on a little-endian machine.
unfoldable pub htons : ℕ → ℕ
unfolding put_uint16
htons i = let (b0, b1) = put_uint16 i in b0 + 2 ^ 8 * b1

-- The descriptors that the call opened, and its result.
unfoldable pub open_raw_sock : Answers → ℕ → List ℕ × Reply ℕ
open_raw_sock a index = elim (a.socket index) [
  | failure e ↦ ([], failure e)
  | value fd ↦ elim (a.bind index) [ some e ↦ (fd ∷ [], failure e) | none ↦ (fd ∷ [], value fd) ]
]

-- An entry is 0 until it is set.
abbrev pub entry : Reply ℕ → SocketFd
entry (failure e) = descriptor 0
entry (value fd) = descriptor fd

-- The loop from `index`, with `left` entries to fill: the entries, and the descriptors opened. An
-- error of `SetsockoptInt` is logged, after the entry is set.
unfoldable pub attach_from : Answers → ℕ → ℕ → List SocketFd × List ℕ
unfolding open_raw_sock
attach_from a zero index = ([], [])
attach_from a (suc left) index =
    let (fds, later) = attach_from a left (index + 1) in
    let (opened, r) = open_raw_sock a index in (entry r ∷ fds, opened ++ later)

abbrev pub attach_program_to_network_interface : Answers → List SocketFd × List ℕ
attach_program_to_network_interface a = attach_from a socket_count 0

-- The entries after `Close`, and the descriptors that it closed.
unfoldable pub close_sockets : List SocketFd → List SocketFd × List ℕ
close_sockets [] = ([], [])
close_sockets (minus_one ∷ fds) =
    let (rest, closed) = close_sockets fds in (minus_one ∷ rest, closed)
close_sockets (descriptor fd ∷ fds) =
    let (rest, closed) = close_sockets fds in
    if ltb 0 fd then (minus_one ∷ rest, fd ∷ closed) else (descriptor fd ∷ rest, closed)
