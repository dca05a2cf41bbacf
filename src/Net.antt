-- ===== src/Net.antt =====
-- Go's net and strconv, as far as the controller uses them, on the bytes of a text: decimal numbers,
-- dotted IPv4 addresses and CIDR prefixes. The IPv6 half of netip.ParseAddr is a parameter.
mod Decimal
pub mod Digits
unfoldable pub use Decimal.{is_digit, all_digits, decimal, parse_uint, split_on}
use k8gobgp.Prelude.{
  ℕ, ◌+◌, ◌-◌, ◌*◌, ◌/◌, ◌^◌, Bool, true, false, ◌&&◌, ◌||◌, Option, none, some, List, [], ◌∷◌,
  ◌==◌, nat_eq, list_eq, if◌then◌else◌, leb, ltb, length,
}

-- A parsed address: four bytes, or the sixteen bytes of an IPv6 address.
pub data Ip : Type 0 where
  v4 : ℕ → ℕ → ℕ → ℕ → Ip
  v6 : List ℕ → Ip

-- A field of parseIPv4: one to three digits without a leading zero, at most 255.
unfoldable pub octet : List ℕ → Option ℕ
octet [] = none
octet (c ∷ cs) =
    if all_digits (c ∷ cs)
      && leb (length (c ∷ cs)) 3
      && (length (c ∷ cs) == 1 || (if c == 48 then false else true))
      && leb (decimal (c ∷ cs)) 255
    then some (decimal (c ∷ cs))
    else none

unfoldable pub four_octets : List (Option ℕ) → Option Ip
four_octets (some a ∷ some b ∷ some c ∷ some d ∷ []) = some (v4 a b c d)
four_octets _ = none

unfoldable pub octets : List (List ℕ) → List (Option ℕ)
unfolding octet
octets [] = []
octets (f ∷ fs) = octet f ∷ octets fs

unfoldable pub parse_ipv4 : List ℕ → Option Ip
unfolding octets four_octets
parse_ipv4 cs = four_octets (octets (split_on b'.' cs))

module _ (parse_ipv6 : List ℕ → Option (List ℕ)) where
  unfoldable pub as_v6 : Option (List ℕ) → Option Ip
  as_v6 none = none
  as_v6 (some bs) = some (v6 bs)

  -- The first of `.`, `:` and `%` decides which parser is called.
  unfoldable pub choose_parser : List ℕ → List ℕ → Option Ip
  unfolding parse_ipv4 as_v6
  choose_parser all [] = none
  choose_parser all (c ∷ cs) =
      let rest = choose_parser all cs in
      if c == b'.'
      then parse_ipv4 all
      else if c == b':'
      then as_v6 (parse_ipv6 all)
      else if c == b'%'
      then none
      else rest

  -- net.ParseIP: `none` for nil.
  unfoldable pub parse_ip : List ℕ → Option Ip
  unfolding choose_parser
  parse_ip cs = choose_parser cs cs

-- IP.To4: an IPv6 address that maps an IPv4 one has the form ::ffff:a.b.c.d.
unfoldable pub to4 : Ip → Option (ℕ × ℕ × ℕ × ℕ)
to4 (v4 a b c d) = some (a, b, c, d)
to4 (v6 (b0 ∷ b1 ∷ b2 ∷ b3 ∷ b4 ∷ b5 ∷ b6 ∷ b7 ∷ b8 ∷ b9 ∷ b10 ∷ b11 ∷ a ∷ b ∷ c ∷ d ∷ [])) =
    if (b0 ∷ b1 ∷ b2 ∷ b3 ∷ b4 ∷ b5 ∷ b6 ∷ b7 ∷ b8 ∷ b9 ∷ b10 ∷ b11 ∷ [])
      == (0 ∷ 0 ∷ 0 ∷ 0 ∷ 0 ∷ 0 ∷ 0 ∷ 0 ∷ 0 ∷ 0 ∷ 255 ∷ 255 ∷ [])
    then some (a, b, c, d)
    else none
to4 (v6 _) = none
