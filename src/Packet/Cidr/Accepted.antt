-- ===== src/Packet/Cidr/Accepted.antt =====
-- Which texts `parseIPSizeCIDR` accepts.
use connectivity_exporter.Prelude.{
  ℕ, ◌-◌, ◌<◌, ◌≤◌, ◌≡◌, refl, ap, ◌∙◌, arith, true, [], ◌∷◌, ◌++◌, none, some, leb,
}
use connectivity_exporter.Prelude.GoString.{GoString}
use connectivity_exporter.Prelude.Results.{ok}
use connectivity_exporter.Packet.Bytes.Addresses.{decimal, ip_string}
use connectivity_exporter.Packet.Net.{to4, has_prefix, parse_ip, v4_in_v6}
use connectivity_exporter.Packet.Net.Networks.{parse_cidr, parse_ones, network}
use connectivity_exporter.Packet.Net.Quads.{dotted, dotted-eq, parse_ipv4-dotted, dtoi-decimal}
use connectivity_exporter.Packet.Net.Scans.{
  free, dotted-free, decimal-free, cut_slash-free, cut_slash-slash, parse_ip_by-dot,
}
use connectivity_exporter.Packet.Net.Masked.{first_bits, mask-mapped}
use connectivity_exporter.Packet.Cidr.{parse_ip_size_cidr}

at_most : (n : ℕ) → n ≤ 32 → leb n 32 ≡ true
at_most n le = ground arith

module _ (a b c d : ℕ) (ha : a < 256) (hb : b < 256) (hc : c < 256) (hd : d < 256) where
  parse_ip-dotted : parse_ip (dotted a b c d []) ≡ some (v4_in_v6 ++ (a ∷ b ∷ c ∷ d ∷ []))
  parse_ip-dotted =
      parse_ip_by-dot (dotted a b c d []) (decimal a) _ (decimal-free b':' a ha refl)
        (decimal-free b'.' a ha refl)
      ∙ parse_ipv4-dotted a b c d ha hb hc hd

  no_slash : free b'/' (dotted a b c d []) ≡ true
  no_slash = dotted-free b'/' a b c d ha hb hc hd refl refl

  parse_cidr-dotted : parse_cidr (dotted a b c d []) ≡ none
  unfolding parse_cidr
  parse_cidr-dotted = rw (parse_cidr, cut_slash-free (dotted a b c d []) no_slash) refl

  parse_ip_size_cidr-address :
      (s : GoString)
      → ip_string (a ∷ b ∷ c ∷ d ∷ []) ≡ ok s
      → parse_ip_size_cidr s ≡ ok (a ∷ b ∷ c ∷ d ∷ [], 32)
  unfolding parse_ip_size_cidr parse_cidr to4 has_prefix
  parse_ip_size_cidr-address s e =
      ap parse_ip_size_cidr (dotted-eq a b c d s e)
      ∙ rw (parse_ip_size_cidr, parse_cidr-dotted, parse_ip-dotted) refl

  network-decimal :
      (n : ℕ)
      → n ≤ 32
      → network (decimal n) 32 (v4_in_v6 ++ (a ∷ b ∷ c ∷ d ∷ []))
        ≡ some (record {
          ip =
              first_bits n a
              ∷ first_bits (n - 8) b
              ∷ first_bits (n - 8 - 8) c
              ∷ first_bits (n - 8 - 8 - 8) d
              ∷ [];
          ones = n;
        })
  unfolding network parse_ones
  network-decimal n le =
      let (k, e) = dtoi-decimal n (omega arith) in
      rw (network, parse_ones, e, at_most n le, mask-mapped n a b c d ha hb hc hd) refl

  parse_cidr-slash :
      (n : ℕ)
      → n ≤ 32
      → parse_cidr (dotted a b c d [] ++ (b'/' ∷ decimal n))
        ≡ some (record {
          ip =
              first_bits n a
              ∷ first_bits (n - 8) b
              ∷ first_bits (n - 8 - 8) c
              ∷ first_bits (n - 8 - 8 - 8) d
              ∷ [];
          ones = n;
        })
  unfolding parse_cidr
  parse_cidr-slash n le =
      rw
        (
          parse_cidr,
          cut_slash-slash (dotted a b c d []) (decimal n) no_slash,
          parse_ipv4-dotted a b c d ha hb hc hd,
          network-decimal n le,
        )
        refl

  parse_ip_size_cidr-network :
      (n : ℕ) (s : GoString)
      → ip_string (a ∷ b ∷ c ∷ d ∷ []) ≡ ok s
      → n ≤ 32
      → parse_ip_size_cidr (s ++ (b'/' ∷ decimal n))
        ≡ ok (
          first_bits n a
              ∷ first_bits (n - 8) b
              ∷ first_bits (n - 8 - 8) c
              ∷ first_bits (n - 8 - 8 - 8) d
              ∷ [],
          n,
        )
  unfolding parse_ip_size_cidr parse_cidr to4 has_prefix
  parse_ip_size_cidr-network n s e le =
      rw (dotted-eq a b c d s e, parse_ip_size_cidr, parse_cidr-slash n le) refl

  -- The text of four bytes stands for the address, of size 32, and with a slash and a number up to
  -- 32 after it for the first so many bits of the address, the others cleared, of that size.
  pub parse_ip_size_cidr-ip_string :
      (n : ℕ) (s : GoString)
      → n ≤ 32
      → ip_string (a ∷ b ∷ c ∷ d ∷ []) ≡ ok s
      → (parse_ip_size_cidr s ≡ ok (a ∷ b ∷ c ∷ d ∷ [], 32))
        × (parse_ip_size_cidr (s ++ (b'/' ∷ decimal n))
            ≡ ok (
              first_bits n a
                  ∷ first_bits (n - 8) b
                  ∷ first_bits (n - 8 - 8) c
                  ∷ first_bits (n - 8 - 8 - 8) d
                  ∷ [],
              n,
            ))
  parse_ip_size_cidr-ip_string n s le e =
      (parse_ip_size_cidr-address s e, parse_ip_size_cidr-network n s e le)
