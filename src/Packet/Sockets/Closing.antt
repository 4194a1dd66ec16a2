-- ===== src/Packet/Sockets/Closing.antt =====
-- Which descriptors `Close` of the attachment closes.
use connectivity_exporter.Prelude.{
  ℕ, zero, suc, ◌+◌, ◌≡◌, refl, arith, Bool, true, ltb, List, [], ◌∷◌, none, some,
}
use connectivity_exporter.Prelude.Results.{Reply, value, failure}
use connectivity_exporter.Packet.Sockets.{
  Answers, SocketFd, descriptor, minus_one, socket_count, attach_from,
  attach_program_to_network_interface, close_sockets,
}

-- The sockets that were opened and bound, by index.
abbrev pub bound_from : Answers → ℕ → ℕ → List ℕ
bound_from a zero index = []
bound_from a (suc left) index =
    let rest = bound_from a left (index + 1) in
    elim (a.socket index) [
      | failure e ↦ rest
      | value fd ↦ elim (a.bind index) [ some e ↦ rest | none ↦ fd ∷ rest ]
    ]

-- All sockets that were opened.
abbrev pub opened_from : Answers → ℕ → ℕ → List ℕ
opened_from a zero index = []
opened_from a (suc left) index =
    let rest = opened_from a left (index + 1) in
    elim (a.socket index) [ failure e ↦ rest | value fd ↦ fd ∷ rest ]

-- Descriptor 0 is the standard input, which is open.
abbrev pub is_positive : Reply ℕ → Bool
is_positive (failure e) = true
is_positive (value fd) = ltb 0 fd

abbrev pub ArePositive : Answers → Type 0
ArePositive a = (index : ℕ) → is_positive (a.socket index) ≡ true

closed-bound :
    (a : Answers) (left index : ℕ)
    → ArePositive a
    → (close_sockets (attach_from a left index).0).1 ≡ bound_from a left index
unfolding close_sockets attach_from
closed-bound a zero index positive = refl
closed-bound a (suc left) index positive =
    ground (arith, closed-bound a left (index + 1) positive, positive index)

opened-all :
    (a : Answers) (left index : ℕ) → (attach_from a left index).1 ≡ opened_from a left index
unfolding attach_from
opened-all a zero index = refl
opened-all a (suc left) index = ground (arith, opened-all a left (index + 1))

closed-twice : (fds : List SocketFd) → (close_sockets (close_sockets fds).0).1 ≡ []
unfolding close_sockets
closed-twice [] = refl
closed-twice (minus_one ∷ fds) = closed-twice fds
closed-twice (descriptor fd ∷ fds) = ground (arith, closed-twice fds)

-- If no socket gets the descriptor 0, attaching opens one socket for each index for which the
-- kernel gives one, closing then closes exactly those that were bound, and closing again closes
-- nothing.
pub attach-close_sockets :
    (a : Answers)
    → ArePositive a
    → ((attach_program_to_network_interface a).1 ≡ opened_from a socket_count 0)
      × ((close_sockets (attach_program_to_network_interface a).0).1 ≡ bound_from a socket_count 0)
      × ((close_sockets (close_sockets (attach_program_to_network_interface a).0).0).1 ≡ [])
attach-close_sockets a positive = (
  opened-all a socket_count 0,
  closed-bound a socket_count 0 positive,
  closed-twice (attach_program_to_network_interface a).0,
)
