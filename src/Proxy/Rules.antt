-- ===== src/Proxy/Rules.antt =====
-- crates/h3s-proxy/src/plan.rs: which rules the text of `render` has.
use Prim.Native.String.{◌++◌ as join}
use text.Mathlib.TextLemmas.{append_assoc, append-nil}
use hedronetes_h3s.Prelude.{
  String, List, [], ◌∷◌, Bool, true, false, ◌≡◌, refl, sym, ap, ◌∙◌, subst, In, here, there, not,
  if◌then◌else◌, is_empty,
}
use hedronetes_h3s.Proxy.Types.{nft, Frontend, concat, show_ip, decimal}
use hedronetes_h3s.Proxy.Render.{
  line, write_each, jump_rule, reject_rule, reject_chain, original_of, masquerade_rules,
  hairpin_rule, jump_chain, reject_chains,
}

-- `t` goes on from `s`.
abbrev pub Grows : String → String → Type 0
Grows s t = (rest : String) × (t ≡ join s rest)

-- `rule` stands somewhere in the text.
abbrev pub Has : String → String → Type 0
Has rule t = (before : String) × Grows (join before rule) t

pub Grows-refl : (s : String) → Grows s s
Grows-refl s = ("", sym (append-nil s))

pub Grows-trans : (s t u : String) → Grows s t → Grows t u → Grows s u
Grows-trans s t u (a, f) (b, g) = (join a b, g ∙ ap (λ v. join v b) f ∙ append_assoc s a b)

pub Has-Grows : (rule s t : String) → Has rule s → Grows s t → Has rule t
Has-Grows rule s t (before, g) h = (before, Grows-trans (join before rule) s t g h)

line-Grows : (pieces : List String) (s : String) → Grows s (line pieces s)
line-Grows pieces s = (join (concat pieces) "\n", refl)

line-Has : (pieces : List String) (s : String) → Has (join (concat pieces) "\n") (line pieces s)
line-Has pieces s = (s, Grows-refl (line pieces s))

-- A writer that only appends
abbrev pub Appends : (String → String) → Type 0
Appends write = (s : String) → Grows s (write s)

module _ {ℓ} {A : Type ℓ} (write : A → String → String)
    (appends : (x : A) → Appends (write x)) where
  pub write_each-Grows : (xs : List A) → Appends (write_each write xs)
  write_each-Grows [] s = Grows-refl s
  write_each-Grows (x ∷ xs) s =
      Grows-trans s (write x s) (write_each write xs (write x s)) (appends x s)
        (write_each-Grows xs (write x s))

  pub write_each-Has :
      (rule : String) (x : A) (xs : List A)
      → In x xs
      → ((s : String) → Has rule (write x s))
      → (s : String) → Has rule (write_each write xs s)
  write_each-Has rule x [] m has s = elim m [ ]
  write_each-Has rule x (y ∷ ys) (here e) has s =
      Has-Grows rule (write y s) (write_each write ys (write y s))
        (subst (λ z. Has rule (write z s)) (sym e) (has s)) (write_each-Grows ys (write y s))
  write_each-Has rule x (y ∷ ys) (there m) has s = write_each-Has rule x ys m has (write y s)

pub if-Grows : (b : Bool) (s t u : String) → Grows s t → Grows s u → Grows s (if b then t else u)
if-Grows true s t u g h = g
if-Grows false s t u g h = h

-- A line by its pieces
abbrev pub line_text : List String → String
line_text pieces = join (concat pieces) "\n"

-- The packets to a frontend go to its chain.
abbrev pub jump_text : Frontend → String
jump_text f = line_text (
    "  ip daddr "
    ∷ show_ip f.ip
    ∷ " "
    ∷ nft f.protocol
    ∷ " dport "
    ∷ decimal f.port
    ∷ " counter "
    ∷ "jump "
    ∷ f.id
    ∷ [])

-- The packets to a frontend are dropped or rejected.
abbrev pub refusal_text : Frontend → String
refusal_text f = line_text (
    "  ip daddr "
    ∷ show_ip f.ip
    ∷ " "
    ∷ nft f.protocol
    ∷ " dport "
    ∷ decimal f.port
    ∷ " counter "
    ∷ (if f.local then "drop" else "reject")
    ∷ [])

jump_rule-Grows : (f : Frontend) → Appends (jump_rule f)
jump_rule-Grows f s =
    if-Grows (not (is_empty f.backends)) s (join s (jump_text f)) s (_, refl) (Grows-refl s)

jump_rule-Has :
    (f : Frontend) → is_empty f.backends ≡ false → (s : String) → Has (jump_text f) (jump_rule f s)
jump_rule-Has f h s = rw h (s, Grows-refl (join s (jump_text f)))

reject_rule-Grows : (f : Frontend) → Appends (reject_rule f)
reject_rule-Grows f s =
    if-Grows (is_empty f.backends) s (join s (refusal_text f)) s (_, refl) (Grows-refl s)

reject_rule-Has :
    (f : Frontend)
    → is_empty f.backends ≡ true
    → (s : String) → Has (refusal_text f) (reject_rule f s)
reject_rule-Has f h s = rw h (s, Grows-refl (join s (refusal_text f)))

pub jump_chain-Grows : (fs : List Frontend) → Appends (jump_chain fs)
jump_chain-Grows fs s =
    let opened = line (" chain services {" ∷ []) s in
    let rules = write_each jump_rule fs opened in
    Grows-trans s opened (line (" }" ∷ []) rules) (_, refl)
      (Grows-trans opened rules (line (" }" ∷ []) rules)
        (write_each-Grows jump_rule jump_rule-Grows fs opened) (_, refl))

pub jump_chain-Has :
    (f : Frontend) (fs : List Frontend)
    → In f fs
    → is_empty f.backends ≡ false
    → (s : String) → Has (jump_text f) (jump_chain fs s)
jump_chain-Has f fs m h s =
    let rules = write_each jump_rule fs (line (" chain services {" ∷ []) s) in
    Has-Grows (jump_text f) rules (line (" }" ∷ []) rules)
      (write_each-Has jump_rule jump_rule-Grows (jump_text f) f fs m (jump_rule-Has f h)
        (line (" chain services {" ∷ []) s))
      (_, refl)

abbrev opened_hook : String → String → String
opened_hook hook =
    line (
      " chain reject_" ∷ hook ∷ " { type filter hook " ∷ hook ∷ " priority -10; policy accept;"
      ∷ [])

reject_chain-Grows : (fs : List Frontend) (hook : String) → Appends (reject_chain fs hook)
reject_chain-Grows fs hook s =
    let opened = opened_hook hook s in
    let rules = write_each reject_rule fs opened in
    Grows-trans s opened (line (" }" ∷ []) rules) (_, refl)
      (Grows-trans opened rules (line (" }" ∷ []) rules)
        (write_each-Grows reject_rule reject_rule-Grows fs opened) (_, refl))

reject_chain-Has :
    (f : Frontend) (fs : List Frontend)
    → In f fs
    → is_empty f.backends ≡ true
    → (hook s : String) → Has (refusal_text f) (reject_chain fs hook s)
reject_chain-Has f fs m h hook s =
    let rules = write_each reject_rule fs (opened_hook hook s) in
    Has-Grows (refusal_text f) rules (line (" }" ∷ []) rules)
      (write_each-Has reject_rule reject_rule-Grows (refusal_text f) f fs m (reject_rule-Has f h)
        (opened_hook hook s))
      (_, refl)

pub reject_chains-Grows : (fs : List Frontend) → Appends (reject_chains fs)
reject_chains-Grows fs =
    write_each-Grows (reject_chain fs) (reject_chain-Grows fs) ("input" ∷ "forward" ∷ "output" ∷ [])

pub reject_chains-Has :
    (f : Frontend) (fs : List Frontend)
    → In f fs
    → is_empty f.backends ≡ true
    → (s : String) → Has (refusal_text f) (reject_chains fs s)
reject_chains-Has f fs m h =
    write_each-Has (reject_chain fs) (reject_chain-Grows fs) (refusal_text f) "input"
      ("input" ∷ "forward" ∷ "output" ∷ []) (here refl) (reject_chain-Has f fs m h "input")

pub masquerade_rules-Grows : (cidrs : String) (f : Frontend) → Appends (masquerade_rules cidrs f)
masquerade_rules-Grows cidrs f s =
    let opened =
      line (original_of f (" ip saddr != { " ∷ cidrs ∷ " } counter masquerade" ∷ [])) s in
    let rules = write_each (hairpin_rule f) f.backends opened in
    if-Grows (is_empty f.backends) s s rules (Grows-refl s) (
      Grows-trans s opened rules (_, refl)
        (write_each-Grows (hairpin_rule f) (λ b t. (_, refl)) f.backends opened))
