-- ===== src/Proxy/Render.antt =====
-- crates/h3s-proxy/src/plan.rs: `Plan::render`, the ruleset for nft.
use Prim.Native.String.{◌++◌ as join, len}
use hedronetes_h3s.Prelude.{
  ℕ, suc, ◌*◌, String, List, [], ◌∷◌, Bool, ◌&&◌, ◌||◌, not, if◌then◌else◌, leb, ltb, ◌==◌, all,
  length, is_empty, map, codes, is_digit, ok, err, for_each,
}
use hedronetes_h3s.Prelude.Results.{◌>>=◌}
use hedronetes_h3s.Proxy.Ip.{R, refuse_if}
use hedronetes_h3s.Proxy.Types.{Platform, nft, Backend, Frontend, Plan, concat, show_ip, decimal}

-- TABLE and MAX_RULESET of crates/h3s-proxy/src/lib.rs
abbrev table : String
table = "h3s_proxy"

abbrev pub max_ruleset : ℕ
max_ruleset = 2 * 1024 * 1024

-- `writeln!(out, …)`, by the pieces of the line
abbrev pub line : List String → String → String
line pieces out = join out (join (concat pieces) "\n")

-- `for x in xs { writeln!(out, …) }`, and the like
abbrev pub write_each {ℓ} : {A : Type ℓ} → (A → String → String) → List A → String → String
write_each write [] out = out
write_each write (x ∷ xs) out = write_each write xs (write x out)

abbrev pub separated : List String → String
separated [] = ""
separated (s ∷ []) = s
separated (s ∷ t ∷ rest) = join s (join ", " (separated (t ∷ rest)))

-- `char::is_ascii_hexdigit`
abbrev pub is_hex : ℕ → Bool
is_hex c = is_digit c || (leb b'a' c && leb c b'f') || (leb b'A' c && leb c b'F')

abbrev pub valid_owner : String → Bool
valid_owner owner = len owner == 64 && all is_hex (codes owner)

abbrev pub nat_hook : String → String → String
nat_hook hook out =
    line
      (" chain nat_" ∷ hook ∷ " { type nat hook " ∷ hook
        ∷ " priority -100; policy accept; jump services; }" ∷ [])
      out

-- The start of a rule for the packets to a frontend
abbrev pub matching : Frontend → List String → List String
matching s rest =
    "  ip daddr "
    ∷ show_ip s.ip
    ∷ " "
    ∷ nft s.protocol
    ∷ " dport "
    ∷ decimal s.port
    ∷ " counter "
    ∷ rest

abbrev pub jump_rule : Frontend → String → String
jump_rule s out =
    if not (is_empty s.backends) then line (matching s ("jump " ∷ s.id ∷ [])) out else out

abbrev pub jump_chain : List Frontend → String → String
jump_chain services out =
    line (" }" ∷ []) (write_each jump_rule services (line (" chain services {" ∷ []) out))

abbrev pub reject_rule : Frontend → String → String
reject_rule s out =
    if is_empty s.backends
    then line (matching s ((if s.local then "drop" else "reject") ∷ [])) out
    else out

abbrev pub reject_chain : List Frontend → String → String → String
reject_chain services hook out =
    let opened =
      line
        (" chain reject_" ∷ hook ∷ " { type filter hook " ∷ hook ∷ " priority -10; policy accept;"
          ∷ [])
        out in
    line (" }" ∷ []) (write_each reject_rule services opened)

abbrev pub reject_chains : List Frontend → String → String
reject_chains services = write_each (reject_chain services) ("input" ∷ "forward" ∷ "output" ∷ [])

abbrev pub original_of : Frontend → List String → List String
original_of s rest =
    "  ct status dnat ct original ip daddr "
    ∷ show_ip s.ip
    ∷ " meta l4proto "
    ∷ nft s.protocol
    ∷ " ct original proto-dst "
    ∷ decimal s.port
    ∷ rest

abbrev pub hairpin_rule : Frontend → Backend → String → String
hairpin_rule s b out =
    line
      (original_of s (
        " ip saddr "
        ∷ show_ip b.ip
        ∷ " ip daddr "
        ∷ show_ip b.ip
        ∷ " "
        ∷ nft s.protocol
        ∷ " dport "
        ∷ decimal b.port
        ∷ " counter masquerade"
        ∷ []))
      out

abbrev pub masquerade_rules : String → Frontend → String → String
masquerade_rules cidrs s out =
    if is_empty s.backends
    then out
    else write_each (hairpin_rule s) s.backends
        (line (original_of s (" ip saddr != { " ∷ cidrs ∷ " } counter masquerade" ∷ [])) out)

module _ (platform : Platform) where
  -- `ep_` and the digest of the frontend's id and the backend
  unfoldable pub endpoint_chain : Frontend → Backend → String
  endpoint_chain s b = concat (
      "ep_" ∷ platform.digest (concat (s.id ∷ ":" ∷ show_ip b.ip ∷ ":" ∷ decimal b.port ∷ [])) ∷ [])

  -- `enumerate()` from a number
  abbrev entries : Frontend → ℕ → List Backend → List String
  entries s i [] = []
  entries s i (b ∷ bs) =
      concat (decimal i ∷ " : jump " ∷ endpoint_chain s b ∷ []) ∷ entries s (suc i) bs

  abbrev pub dispatch : Frontend → List Backend → String → String
  dispatch s [] out = out
  dispatch s (b ∷ []) out = line ("  jump " ∷ endpoint_chain s b ∷ []) out
  dispatch s (b ∷ c ∷ rest) out =
      line
        ("  numgen random mod "
          ∷ decimal (length (b ∷ c ∷ rest))
          ∷ " vmap { "
          ∷ separated (entries s 0 (b ∷ c ∷ rest))
          ∷ " }"
          ∷ [])
        out

  abbrev pub endpoint_rule : Frontend → Backend → String → String
  endpoint_rule s b out =
      line
        (" chain "
          ∷ endpoint_chain s b
          ∷ " { meta l4proto "
          ∷ nft s.protocol
          ∷ " counter dnat to "
          ∷ show_ip b.ip
          ∷ ":"
          ∷ decimal b.port
          ∷ "; }"
          ∷ [])
        out

  abbrev pub check_length : String → R String
  check_length out = if ltb max_ruleset (len out) then err "ruleset exceeds byte limit" else ok out

  abbrev pub service_chain : Frontend → String → R String
  service_chain s out =
      if is_empty s.backends
      then ok out
      else check_length (
          write_each (endpoint_rule s) s.backends
            (line (" }" ∷ []) (dispatch s s.backends (line (" chain " ∷ s.id ∷ " {" ∷ []) out))))

  abbrev pub preamble : String → String
  preamble owner = concat (
      "add table ip " ∷ table ∷ "\ndelete table ip " ∷ table ∷ "\ntable ip " ∷ table
      ∷ " {\n comment \"hedronetes.io/service-proxy/v1:" ∷ owner ∷ "\"\n" ∷ [])

  abbrev pub postrouting : Plan platform.net → String → String
  postrouting plan out =
      let cidrs = separated (map platform.net.show plan.pod_cidrs) in
      let opened =
        line (" chain postrouting { type nat hook postrouting priority 90; policy accept;" ∷ [])
          out in
      line (" }" ∷ []) (write_each (masquerade_rules cidrs) plan.services opened)

  -- The text before the chains of the Services
  abbrev pub base_chains : Plan platform.net → String → String
  base_chains plan owner =
      let hooked = write_each nat_hook ("prerouting" ∷ "output" ∷ []) (preamble owner) in
      postrouting plan (reject_chains plan.services (jump_chain plan.services hooked))

  unfoldable pub render : Plan platform.net → String → R String
  render plan owner = do
    owned ← refuse_if (not (valid_owner owner)) "invalid table ownership digest"
    chains ← for_each service_chain plan.services (base_chains plan owner)
    check_length (line ("}" ∷ []) chains)
