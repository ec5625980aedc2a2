-- ===== src/Proxy/Ruleset.antt =====
-- crates/h3s-proxy/src/plan.rs: the ruleset of `render` has the rules of every frontend and backend.
use Prim.Native.String.{len}
use hedronetes_h3s.Prelude.{
  ◌≤◌, String, [], ◌∷◌, Bool, true, false, ◌≡◌, refl, sym, In, not, is_empty, map, ok, for_each,
}
use hedronetes_h3s.Prelude.Results.{◌>>=◌, >>=-eq-ok}
use hedronetes_h3s.Proxy.Ip.{R, refuse_if}
use hedronetes_h3s.Proxy.Types.{Platform, Backend, Frontend, Plan, concat}
use hedronetes_h3s.Proxy.Render.{
  max_ruleset, line, write_each, valid_owner, nat_hook, masquerade_rules, separated, preamble,
  service_chain, check_length, render, jump_chain, reject_chains, postrouting, base_chains,
}
use hedronetes_h3s.Proxy.Rules.{
  Grows, Has, Grows-trans, Has-Grows, write_each-Grows, Appends, line_text, jump_text, refusal_text,
  jump_chain-Grows, jump_chain-Has, reject_chains-Grows, reject_chains-Has, masquerade_rules-Grows,
}
use hedronetes_h3s.Proxy.Chains.{
  endpoint_text, check_length-eq, service_chain-header, service_chain-endpoint, chains-Grows,
  chains-Has,
}

-- The table of the proxy is made if it is missing, deleted, and opened with its owner.
abbrev pub scope_text : String → String
scope_text owner = concat (
    "add table ip " ∷ "h3s_proxy" ∷ "\ndelete table ip " ∷ "h3s_proxy" ∷ "\ntable ip " ∷ "h3s_proxy"
    ∷ " {\n comment \"hedronetes.io/service-proxy/v1:" ∷ owner ∷ "\"\n" ∷ [])

module _ (platform : Platform) where
  -- What the text of a plan's rules has.
  pub record IsRuleset (plan : Plan platform.net) (owner out : String) : Type 0 where
    pub owned : valid_owner owner ≡ true
    pub size : len out ≤ max_ruleset
    pub scope : Grows (scope_text owner) out
    pub routed :
        (f : Frontend)
        → In f plan.services
        → is_empty f.backends ≡ false
        → Has (jump_text f) out × (Has (line_text (" chain " ∷ f.id ∷ " {" ∷ [])) out)
    pub translated :
        (f : Frontend) (b : Backend)
        → In f plan.services
        → In b f.backends
        → Has (endpoint_text platform f b) out
    pub refused :
        (f : Frontend) → In f plan.services → is_empty f.backends ≡ true → Has (refusal_text f) out

  refuse_if-eq :
      (b : Bool) (message : String) {u : Unit {0}} → refuse_if (not b) message ≡ ok u → b ≡ true
  refuse_if-eq true message h = refl
  refuse_if-eq false message h = absurd (cc)

  postrouting-Grows : (plan : Plan platform.net) → Appends (postrouting platform plan)
  postrouting-Grows plan s =
      let cidrs = separated (map platform.net.show plan.pod_cidrs) in
      let opened =
        line (" chain postrouting { type nat hook postrouting priority 90; policy accept;" ∷ [])
          s in
      let rules = write_each (masquerade_rules cidrs) plan.services opened in
      Grows-trans s opened (line (" }" ∷ []) rules) (_, refl)
        (Grows-trans opened rules (line (" }" ∷ []) rules)
          (write_each-Grows (masquerade_rules cidrs) (masquerade_rules-Grows cidrs) plan.services
            opened)
          (_, refl))

  module _ (plan : Plan platform.net) (owner : String) where
    abbrev hooked : String
    hooked = write_each nat_hook ("prerouting" ∷ "output" ∷ []) (preamble platform owner)

    abbrev jumped : String
    jumped = jump_chain plan.services hooked

    abbrev rejected : String
    rejected = reject_chains plan.services jumped

    abbrev base : String
    base = base_chains platform plan owner

    jumped-Grows : Grows jumped base
    jumped-Grows =
        Grows-trans jumped rejected base (reject_chains-Grows plan.services jumped)
          (postrouting-Grows plan rejected)

    base-Grows : Grows (preamble platform owner) base
    base-Grows =
        Grows-trans (preamble platform owner) hooked base
          (write_each-Grows nat_hook (λ hook s. (_, refl)) ("prerouting" ∷ "output" ∷ [])
            (preamble platform owner))
          (Grows-trans hooked jumped base (jump_chain-Grows plan.services hooked) jumped-Grows)

    base-jump :
        (f : Frontend) → In f plan.services → is_empty f.backends ≡ false → Has (jump_text f) base
    base-jump f m e =
        Has-Grows (jump_text f) jumped base (jump_chain-Has f plan.services m e hooked) jumped-Grows

    base-refusal :
        (f : Frontend) → In f plan.services → is_empty f.backends ≡ true → Has (refusal_text f) base
    base-refusal f m e =
        Has-Grows (refusal_text f) rejected base (reject_chains-Has f plan.services m e jumped)
          (postrouting-Grows plan rejected)

  -- The ruleset of a plan, where it is rendered: the owner is 64 hexadecimal digits, the text has at
  -- most 2 MiB and starts by replacing the one table of the proxy; every frontend with backends has
  -- the rule that jumps to its chain and that chain, every backend the chain that translates to it,
  -- and every frontend without backends the rule that drops or rejects its packets.
  pub render-IsRuleset :
      (plan : Plan platform.net) (owner out : String)
      → render platform plan owner ≡ ok out
      → IsRuleset plan owner out
  unfolding render
  render-IsRuleset plan owner out h =
      let base = base_chains platform plan owner in
      let close : String → R String = λ c. check_length platform (line ("}" ∷ []) c) in
      let (u, owned, h1) =
        >>=-eq-ok (refuse_if (not (valid_owner owner)) "invalid table ownership digest")
          (λ _. for_each (service_chain platform) plan.services base >>= close) h in
      let (chains, built, h2) =
        >>=-eq-ok (for_each (service_chain platform) plan.services base) close h1 in
      let (same, small) = check_length-eq platform (line ("}" ∷ []) chains) out h2 in
      let ends : Grows chains out = (_, sym same) in
      let grows : Grows base out =
        Grows-trans base chains out (chains-Grows platform plan.services base chains built) ends in
      record {
        owned = refuse_if-eq (valid_owner owner) "invalid table ownership digest" owned;
        size = small;
        scope = Grows-trans (preamble platform owner) base out (base-Grows plan owner) grows;
        routed = λ f m e. (
          Has-Grows (jump_text f) base out (base-jump plan owner f m e) grows,
          Has-Grows (line_text (" chain " ∷ f.id ∷ " {" ∷ [])) chains out
              (chains-Has platform (line_text (" chain " ∷ f.id ∷ " {" ∷ [])) f plan.services base
                chains m (λ a b. service_chain-header platform f a b e) built)
              ends,
        );
        translated = λ f b m n.
            Has-Grows (endpoint_text platform f b) chains out
              (chains-Has platform (endpoint_text platform f b) f plan.services base chains m
                (λ s t. service_chain-endpoint platform f b s t n) built)
              ends;
        refused =
            λ f m e. Has-Grows (refusal_text f) base out (base-refusal plan owner f m e) grows;
      }
