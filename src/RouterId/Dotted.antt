-- ===== src/RouterId/Dotted.antt =====
-- The dotted text of a generated router ID, as net.IP.String prints it and net.ParseIP reads it.
use k8gobgp.Prelude.{
  ℕ, zero, suc, ◌+◌, ◌*◌, ◌/◌, ◌%◌, ◌^◌, ◌<◌, ◌≡◌, refl, ◌∙◌, Bool, true, false, ◌&&◌, Option, some,
  List, [], ◌∷◌, ◌++◌, ◌==◌, nat_eq, option_eq, if◌then◌else◌, ltb, arith, eq_of_==,
}
use k8gobgp.Net
use k8gobgp.Net.Digits.{split_on-digits, split_on-sep}
use k8gobgp.Net.{Ip, v4, parse_ip, split_on}

-- The decimal digits of a byte.
unfoldable pub print_byte : ℕ → List ℕ
print_byte n =
    if ltb n 10
    then (48 + n) ∷ []
    else if ltb n 100
    then (48 + n / 10) ∷ (48 + n % 10) ∷ []
    else (48 + n / 100) ∷ (48 + n / 10 % 10) ∷ (48 + n % 10) ∷ []

-- net.IP.String of the four bytes that binary.BigEndian.PutUint32 writes.
unfoldable pub print_ipv4 : ℕ → List ℕ
unfolding print_byte
print_ipv4 id =
    print_byte (id / 16777216 % 256)
    ++ (b'.'
        ∷ (print_byte (id / 65536 % 256)
            ++ (b'.' ∷ (print_byte (id / 256 % 256) ++ (b'.' ∷ print_byte (id % 256))))))

reads_back : ℕ → Bool
unfolding print_byte
reads_back b = Net.all_digits (print_byte b) && Net.octet (print_byte b) == some b

bytes_read_back : ℕ → Bool
bytes_read_back zero = true
bytes_read_back (suc last) = bytes_read_back last && reads_back last

reads_back-member : (count b : ℕ) → b < count → bytes_read_back count ≡ true → reads_back b ≡ true
unfolding bytes_read_back
reads_back-member zero b below table = absurd (omega arith)
reads_back-member (suc last) b below table = ground (arith, reads_back-member last b)

reads_back-byte : (b : ℕ) → b < 256 → reads_back b ≡ true
unfolding bytes_read_back reads_back Net.octet Net.all_digits Net.decimal
reads_back-byte b below = reads_back-member 256 b below refl

octet-print_byte : (b : ℕ) → b < 256 → Net.octet (print_byte b) ≡ some b
unfolding reads_back
octet-print_byte b below = eq_of_== (ground (arith, reads_back-byte b below))

all_digits-print_byte : (b : ℕ) → b < 256 → Net.all_digits (print_byte b) ≡ true
unfolding reads_back
all_digits-print_byte b below = ground (arith, reads_back-byte b below)

dot_is_no_digit : Net.is_digit b'.' ≡ false
unfolding Net.is_digit
dot_is_no_digit = refl

choose_parser-dot :
    (parse_ipv6 : List ℕ → Option (List ℕ)) (all xs ys : List ℕ)
    → Net.all_digits xs ≡ true
    → Net.choose_parser parse_ipv6 all (xs ++ (b'.' ∷ ys)) ≡ Net.parse_ipv4 all
unfolding Net.choose_parser Net.all_digits
choose_parser-dot parse_ipv6 all [] ys h = refl
choose_parser-dot parse_ipv6 all (c ∷ cs) ys h =
    ground (arith, choose_parser-dot parse_ipv6 all cs ys)

dotted : ℕ → ℕ → ℕ → ℕ → List ℕ
dotted a b c d =
    print_byte a ++ (b'.' ∷ (print_byte b ++ (b'.' ∷ (print_byte c ++ (b'.' ∷ print_byte d)))))

parse_ip-dotted :
    (parse_ipv6 : List ℕ → Option (List ℕ)) (a b c d : ℕ)
    → a < 256
    → b < 256
    → c < 256
    → d < 256
    → parse_ip parse_ipv6 (dotted a b c d) ≡ some (v4 a b c d)
unfolding parse_ip dotted Net.parse_ipv4 Net.octets Net.four_octets
parse_ip-dotted parse_ipv6 a b c d ha hb hc hd =
    choose_parser-dot parse_ipv6 (dotted a b c d) (print_byte a) _ (all_digits-print_byte a ha)
    ∙ rw
        (
          split_on-sep b'.' (print_byte a)
              (print_byte b ++ (b'.' ∷ (print_byte c ++ (b'.' ∷ print_byte d)))) dot_is_no_digit
              (all_digits-print_byte a ha),
          split_on-sep b'.' (print_byte b) (print_byte c ++ (b'.' ∷ print_byte d)) dot_is_no_digit
              (all_digits-print_byte b hb),
          split_on-sep b'.' (print_byte c) (print_byte d) dot_is_no_digit
              (all_digits-print_byte c hc),
          split_on-digits b'.' (print_byte d) dot_is_no_digit (all_digits-print_byte d hd),
          octet-print_byte a ha,
          octet-print_byte b hb,
          octet-print_byte c hc,
          octet-print_byte d hd,
        )
        refl

pub parse_ip-print_ipv4 :
    (parse_ipv6 : List ℕ → Option (List ℕ)) (id : ℕ)
    → parse_ip parse_ipv6 (print_ipv4 id)
      ≡ some (v4 (id / 16777216 % 256) (id / 65536 % 256) (id / 256 % 256) (id % 256))
unfolding print_ipv4
parse_ip-print_ipv4 parse_ipv6 id =
    unfold dotted in
    parse_ip-dotted parse_ipv6 (id / 16777216 % 256) (id / 65536 % 256) (id / 256 % 256) (id % 256)
      (omega arith) (omega arith) (omega arith) (omega arith)

-- net.ParseIP reads the text of a generated router ID, a 32-bit number, back as four bytes that make up
-- that number.
pub print_ipv4_read_back :
    (parse_ipv6 : List ℕ → Option (List ℕ)) (id : ℕ)
    → id < 2 ^ 32
    → (a : ℕ) × (b : ℕ) × (c : ℕ) × (d : ℕ) × (parse_ip parse_ipv6 (print_ipv4 id)
        ≡ some (v4 a b c d))
      × (a * 16777216 + b * 65536 + c * 256 + d ≡ id)
print_ipv4_read_back parse_ipv6 id h = (
  id / 16777216 % 256,
  id / 65536 % 256,
  id / 256 % 256,
  id % 256,
  parse_ip-print_ipv4 parse_ipv6 id,
  omega arith,
)
