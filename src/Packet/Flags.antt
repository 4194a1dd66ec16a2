-- ===== src/Packet/Flags.antt =====
-- connectivity-exporter/packet/bpf.go: the text of TCP flags.
pub mod Letters
use connectivity_exporter.Prelude.{ℕ, ◌/◌, ◌%◌, Bool, List, [], ◌∷◌, ◌++◌, ◌==◌, if◌then◌else◌}
use connectivity_exporter.Prelude.GoString.{GoString}

pub record TcpFlag : Type 0 where
  pub mask : ℕ
  -- one letter
  pub short : ℕ

abbrev pub flag : ℕ → ℕ → TcpFlag
flag mask short = record { mask = mask; short = short }

abbrev pub tcp_flags : List TcpFlag
tcp_flags =
    flag 1 b'F'
    ∷ flag 2 b'S'
    ∷ flag 4 b'R'
    ∷ flag 8 b'P'
    ∷ flag 16 b'.'
    ∷ flag 32 b'U'
    ∷ flag 64 b'E'
    ∷ flag 128 b'W'
    ∷ []

-- `flags & mask != 0`, for a mask of one bit.
abbrev pub has_flag : ℕ → TcpFlag → Bool
has_flag flags f = flags / f.mask % 2 == 1

unfoldable pub letters : ℕ → List TcpFlag → GoString
letters flags [] = []
letters flags (f ∷ fs) =
    let rest = letters flags fs in if has_flag flags f then f.short ∷ rest else rest

unfoldable pub flags_string : ℕ → GoString
flags_string flags = b'[' ∷ letters flags tcp_flags ++ b']' ∷ []
