-- ===== src/Packet/Bytes/Addresses.antt =====
-- Four-byte addresses and their text, `net.IP(b).String()`, and the keys of the counters.
use connectivity_exporter.Prelude.{ℕ, ◌+◌, ◌/◌, ◌%◌, [], ◌∷◌, ◌++◌, ltb, if◌then◌else◌, length}
use connectivity_exporter.Prelude.GoString.{GoString}
use connectivity_exporter.Prelude.Results.{Outcome, ok, panic, ◌>>=◌}
use connectivity_exporter.Packet.Connection.{ConnKey}
use connectivity_exporter.Packet.Bytes.{slice, before_zero}

-- A byte in decimal, with no leading zero.
unfoldable pub decimal : ℕ → GoString
decimal n =
    if ltb n 10
    then (48 + n) ∷ []
    else if ltb n 100
    then (48 + n / 10) ∷ (48 + n % 10) ∷ []
    else (48 + n / 100) ∷ (48 + n / 10 % 10) ∷ (48 + n % 10) ∷ []

-- The text of a slice of four bytes; the program prints no other.
unfoldable pub ip_string : GoString → Outcome GoString
unfolding decimal
ip_string (a ∷ b ∷ c ∷ d ∷ []) =
    ok (decimal a ++ b'.' ∷ decimal b ++ b'.' ∷ decimal c ++ b'.' ∷ decimal d)
ip_string _ = panic

-- The key of a counter from a key of the inner map.
unfoldable pub conn_key_of_bytes : GoString → Outcome ConnKey
unfolding slice ip_string before_zero
conn_key_of_bytes inner_key = do
  source ← slice inner_key 0 4
  dest ← slice inner_key 4 8
  name ← slice inner_key 8 (length inner_key)
  source_text ← ip_string source
  dest_text ← ip_string dest
  ok (record { source_ip = source_text; dest_ip = dest_text; sni = before_zero name })
