-- ===== src/Proxy/Types.antt =====
-- crates/h3s-proxy/src/plan.rs: `Protocol`, `Backend`, `Frontend`, `Plan`, and the readers of fields.
use Prim.Native.String.{◌++◌ as join, len}
use hedronetes_h3s.Prelude.{
  codes, byte_length, ℕ, zero, suc, ◌/◌, ◌%◌, ◌^◌, String, List, [], ◌∷◌, Bool, ◌&&◌, ◌||◌, not,
  Option, none, some, if◌then◌else◌, leb, ltb, ◌==◌, str_eq, pos, ok, err,
}
use hedronetes_h3s.Json.{Value, int, ◌!◌, as_str}
use hedronetes_h3s.Network.Allocations.{IpNet}
use hedronetes_h3s.Proxy.Ip.{R}
use hedronetes_h3s.Proxy.Forwarding.{or_text}

-- What the plan uses of other crates: ipnet's networks, the network that
-- `"10.43.0.0/16".parse().unwrap()` gives, and the SHA-256 of a text in hexadecimal.
pub record Platform : Type 1 where
  pub net : IpNet
  pub service_range : net.Net
  pub digest : String → String

pub data Protocol : Type 0 where
  tcp udp : Protocol

abbrev protocol_of : String → R Protocol
protocol_of s =
    if str_eq s "TCP"
    then ok tcp
    else if str_eq s "UDP"
    then ok udp
    else err "proxy supports TCP and UDP Service ports"

-- `Protocol::parse`
unfoldable pub parse_protocol : Value → R Protocol
parse_protocol v = protocol_of (or_text "TCP" (as_str v))

abbrev pub nft : Protocol → String
nft tcp = "tcp"
nft udp = "udp"

-- `nft().to_uppercase()`
abbrev pub upper : Protocol → String
upper tcp = "TCP"
upper udp = "UDP"

pub record Backend : Type 0 where
  pub ip : ℕ
  pub port : ℕ

pub record Frontend : Type 0 where
  pub id : String
  pub ip : ℕ
  pub port : ℕ
  pub protocol : Protocol
  pub local : Bool
  -- a set, in its order
  pub backends : List Backend

pub record ServiceStatus : Type 0 where
  pub namespace : String
  pub name : String
  pub port : ℕ
  pub backends : ℕ

-- A warning by its parts; its text is not modelled.
pub data Warning : Type 0 where
  unmatched : String → String → Value → Value → String → Protocol → Warning
  no_endpoint : String → String → ℕ → Protocol → Warning

pub record Plan (net : IpNet) : Type 0 where
  pub pod_cidrs : List net.Net
  pub services : List Frontend
  pub warnings : List Warning
  pub status : List ServiceStatus

abbrev text_within : Option String → R String
text_within none = err "missing resource identity"
text_within (some s) =
    if not (len s == 0) && leb (byte_length (codes s)) 256
    then ok s
    else err "missing resource identity"

unfoldable pub text : Value → String → R String
text v k = text_within (as_str (v ! k))

-- `Value::as_u64`
abbrev pub as_u64 : Value → Option ℕ
as_u64 (int (pos n)) = if ltb n (2 ^ 64) then some n else none
as_u64 _ = none

abbrev pub within : ℕ → ℕ → String → Option ℕ → R ℕ
within low high message none = err message
within low high message (some n) = if leb low n && leb n high then ok n else err message

unfoldable pub port : Value → R ℕ
port v = within 1 65535 "invalid proxy port" (as_u64 v)

unfoldable pub node_port : Value → R ℕ
node_port v = within 30000 32767 "invalid Service node port" (as_u64 v)

-- `BTreeSet<Backend>`: ordered by address, then port
abbrev pub same_backend : Backend → Backend → Bool
same_backend a b = a.ip == b.ip && a.port == b.port

abbrev pub backend_lt : Backend → Backend → Bool
backend_lt a b = ltb a.ip b.ip || (a.ip == b.ip && ltb a.port b.port)

abbrev pub insert_backend : Backend → List Backend → List Backend
insert_backend b [] = b ∷ []
insert_backend b (c ∷ cs) = if backend_lt c b then c ∷ insert_backend b cs else b ∷ c ∷ cs

-- The decimal digits of a number; a port and a part of an address have at most twenty.
abbrev digit_text : ℕ → String
digit_text d =
    if d == 0
    then "0"
    else if d == 1
    then "1"
    else if d == 2
    then "2"
    else if d == 3
    then "3"
    else if d == 4
    then "4"
    else if d == 5
    then "5"
    else if d == 6
    then "6"
    else if d == 7
    then "7"
    else if d == 8
    then "8"
    else "9"

abbrev decimal_from : ℕ → ℕ → String → String
decimal_from zero n rest = rest
decimal_from (suc fuel) n rest =
    let shown = join (digit_text (n % 10)) rest in
    let more = decimal_from fuel (n / 10) shown in if ltb n 10 then shown else more

abbrev pub decimal : ℕ → String
decimal n = decimal_from 20 n ""

-- `format!` and `write!`: the pieces one after another
abbrev pub concat : List String → String
concat [] = ""
concat (s ∷ rest) = join s (concat rest)

-- `Display` of an address
abbrev pub show_ip : ℕ → String
show_ip a = concat (
    decimal (a / 2 ^ 24)
    ∷ "."
    ∷ decimal (a / 2 ^ 16 % 256)
    ∷ "."
    ∷ decimal (a / 2 ^ 8 % 256)
    ∷ "."
    ∷ decimal (a % 256)
    ∷ [])
