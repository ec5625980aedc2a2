-- ===== src/Proxy/Ip.antt =====
-- crates/h3s-proxy/src/plan.rs: `ip`, with std's Ipv4Addr. An address is its 32-bit number.
use mathlib.Core.Option
use hedronetes_h3s.Prelude.{
  ℕ, ◌+◌, ◌-◌, ◌*◌, ◌/◌, ◌^◌, String, List, [], ◌∷◌, Bool, false, ◌&&◌, ◌||◌, not, Option, none,
  some, if◌then◌else◌, leb, ◌==◌, length, codes, split, all_digits, digits_value, Result, ok, err,
  ok_or,
}
use hedronetes_h3s.Prelude.Results.{◌>>=◌}
use hedronetes_h3s.Json.{Value, as_str}

-- `Error::Invalid`, by its text
abbrev pub R {ℓ} : Type ℓ → Type ℓ
R A = Result String A

-- `if test { return Err(…) }`
abbrev pub refuse_if : Bool → String → R (Unit {0})
refuse_if test message = if test then err message else ok tt

-- A part of a dotted address: at most three digits, no leading zero, at most 255.
abbrev leading_zero : List ℕ → Bool
leading_zero (c ∷ d ∷ cs) = c == b'0'
leading_zero _ = false

abbrev octet_ok : List ℕ → Bool
octet_ok s =
    leb 1 (length s)
    && leb (length s) 3
    && all_digits s
    && not (leading_zero s)
    && leb (digits_value 0 s) 255

abbrev four_parts : List (List ℕ) → Option ℕ
four_parts (a ∷ b ∷ c ∷ d ∷ []) =
    if octet_ok a && octet_ok b && octet_ok c && octet_ok d
    then some (
        digits_value 0 a * 2 ^ 24
        + digits_value 0 b * 2 ^ 16
        + digits_value 0 c * 2 ^ 8
        + digits_value 0 d)
    else none
four_parts _ = none

-- `str::parse::<Ipv4Addr>`
unfoldable pub parse_ipv4 : String → Option ℕ
parse_ipv4 s = four_parts (split b'.' (codes s))

-- `octets()[0]`
abbrev pub first_octet : ℕ → ℕ
first_octet a = a / 2 ^ 24

-- is_unspecified, is_loopback, is_multicast, is_link_local, is_broadcast, and the two tests on the
-- first octet
abbrev pub special : ℕ → Bool
special a =
    a == 0
    || first_octet a == 127
    || (leb 224 (first_octet a) && leb (first_octet a) 239)
    || a / 2 ^ 16 == 169 * 256 + 254
    || a == 2 ^ 32 - 1
    || first_octet a == 0
    || leb 240 (first_octet a)

unfoldable pub ip : Value → R ℕ
ip v = ok_or (Option.bind (as_str v) parse_ipv4) "invalid IPv4 address" >>= λ a.
    if special a then err "endpoint must be a unicast IPv4 address" else ok a
