-- ===== src/Server/Rules.antt =====
-- The rules that setSdwan reads back.
use candy.Base.{ℕ, ◌≡◌, ◌≢◌, refl, sym, ap, ◌∙◌, List, [], ◌∷◌, ◌++◌, All, append-nil, append_assoc}
use candy.Base.Int.{pos}
use candy.Base.Chars.{Lacks}
use candy.Net.Ip4.{Ip4, ip_eq_iff}
use candy.Net.Address.{Address, unset, net}
use candy.Net.Cidr.{IpText, from_cidr, to_cidr}
use candy.Net.CidrLaws.{IpTextLaws, from_cidr-to_cidr}
use candy.Net.Prefix.{IsMask}
use candy.Net.Text.{from_string}
use candy.Base.Getline.{pieces, pieces-append, pieces-whole}
use candy.Server.State.{SysRoute, Server}
use candy.Server.Sdwan.{
  comma, semicolon, Rule, rule, network_or, next_hop_of, parse_next, parse_dst, parse_rule,
  configured, add_rules, set_sdwan,
}

unfoldable pub print_rule : IpText → SysRoute → List ℕ
print_rule t rt = to_cidr t rt.dev ++ comma ∷ (to_cidr t rt.dst ++ comma ∷ t.print rt.next)

-- Every rule with a semicolon behind it.
pub print_rules : IpText → List SysRoute → List ℕ
print_rules t [] = []
print_rules t (rt ∷ rts) = print_rule t rt ++ semicolon ∷ print_rules t rts

-- The address of a network with the mask of a prefix length.
pub record IsNetwork (a : Address) : Type 0 where
  pub prefix : ℕ
  pub mask_ones : IsMask prefix a.mask
  pub host_is : a.host ≡ net a

-- Both networks of a rule are ones, and its texts have no separators.
pub record IsRule (t : IpText) (rt : SysRoute) : Type 0 where
  pub dev_network : IsNetwork rt.dev
  pub dst_network : IsNetwork rt.dst
  pub dev_plain : Lacks comma (to_cidr t rt.dev)
  pub dst_plain : Lacks comma (to_cidr t rt.dst)
  pub next_plain : Lacks comma (t.print rt.next)
  pub next_text : t.print rt.next ≢ []
  pub rule_plain : Lacks semicolon (print_rule t rt)

module _ (t : IpText) (laws : IpTextLaws t) where
  network_read :
      (a : Address) (rest : Address → Rule)
      → IsNetwork a
      → network_or (from_cidr t unset (to_cidr t a)) rest ≡ rest a
  unfolding network_or
  network_read a rest n =
      ap (λ p. network_or p rest) (from_cidr-to_cidr t unset laws a n.prefix n.mask_ones)
      ∙ rw ((ip_eq_iff a.host (net a)).1 n.host_is, network_or)

  parse_next-print :
      (dev dst : Address) (next : Ip4)
      → parse_next t dev dst (t.print next ∷ [])
        ≡ rule (record { dev = dev; dst = dst; next = next })
  unfolding parse_next next_hop_of from_string
  parse_next-print dev dst next = ap (next_hop_of dev dst) (laws.parse_print next)

  parse_dst-to_cidr :
      (dev dst : Address) (ps : List (List ℕ))
      → IsNetwork dst
      → parse_dst t dev (to_cidr t dst ∷ ps) ≡ parse_next t dev dst ps
  unfolding parse_dst
  parse_dst-to_cidr dev dst ps n = network_read dst (λ d. parse_next t dev d ps) n

  parse_rule-to_cidr :
      (dev : Address) (ps : List (List ℕ))
      → IsNetwork dev
      → parse_rule t (to_cidr t dev ∷ ps) ≡ parse_dst t dev ps
  unfolding parse_rule
  parse_rule-to_cidr dev ps n = network_read dev (λ d. parse_dst t d ps) n

  pieces-print_rule :
      (rt : SysRoute)
      → IsRule t rt
      → pieces comma (print_rule t rt) ≡ to_cidr t rt.dev ∷ to_cidr t rt.dst ∷ t.print rt.next ∷ []
  unfolding print_rule
  pieces-print_rule rt r =
      pieces-append comma (to_cidr t rt.dev) _ r.dev_plain
      ∙ ap (λ ps. to_cidr t rt.dev ∷ ps)
          (pieces-append comma (to_cidr t rt.dst) _ r.dst_plain
            ∙ ap (λ ps. to_cidr t rt.dst ∷ ps)
                (pieces-whole comma (t.print rt.next) r.next_text r.next_plain))

  parse_rule-print_rule :
      (rt : SysRoute) → IsRule t rt → parse_rule t (pieces comma (print_rule t rt)) ≡ rule rt
  parse_rule-print_rule rt r =
      ap (parse_rule t) (pieces-print_rule rt r)
      ∙ parse_rule-to_cidr rt.dev _ r.dev_network
      ∙ parse_dst-to_cidr rt.dev rt.dst _ r.dst_network
      ∙ parse_next-print rt.dev rt.dst rt.next

  add_rules-cons :
      (rt : SysRoute) (r : List ℕ) (rs : List (List ℕ)) (s : Server)
      → parse_rule t (pieces comma r) ≡ rule rt
      → add_rules t (r ∷ rs) s ≡ add_rules t rs (record s { routes = s.routes ++ rt ∷ [] })
  unfolding add_rules
  add_rules-cons rt r rs s e = rw (e, add_rules)

  add_rules-print_rules :
      (rts : List SysRoute) (s : Server)
      → All (IsRule t) rts
      → add_rules t (pieces semicolon (print_rules t rts)) s
        ≡ configured (record s { routes = s.routes ++ rts }) (pos 0)
  unfolding print_rules
  add_rules-print_rules [] s h =
      unfold pieces add_rules in
      ap (λ r. configured (record s { routes = r }) (pos 0)) (sym (append-nil s.routes))
  add_rules-print_rules (rt ∷ rts) s h =
      ap (λ ps. add_rules t ps s)
        (pieces-append semicolon (print_rule t rt) (print_rules t rts) h.0.rule_plain)
      ∙ add_rules-cons rt (print_rule t rt) _ s (parse_rule-print_rule rt h.0)
      ∙ add_rules-print_rules rts (record s { routes = s.routes ++ rt ∷ [] }) h.1
      ∙ ap (λ r. configured (record s { routes = r }) (pos 0)) (append_assoc s.routes (rt ∷ []) rts)

  set_sdwan-pieces :
      (text : List ℕ) (s : Server) → set_sdwan t text s ≡ add_rules t (pieces semicolon text) s
  unfolding set_sdwan
  set_sdwan-pieces [] s = unfold pieces add_rules in refl
  set_sdwan-pieces (c ∷ text) s = refl

  -- setSdwan on the text of some rules, each a network of the clients, a network behind them and a
  -- next hop, adds exactly these rules in their order, and reports success.
  pub set_sdwan-print_rules :
      (rts : List SysRoute) (s : Server)
      → All (IsRule t) rts
      → set_sdwan t (print_rules t rts) s
        ≡ configured (record s { routes = s.routes ++ rts }) (pos 0)
  set_sdwan-print_rules rts s h =
      set_sdwan-pieces (print_rules t rts) s ∙ add_rules-print_rules rts s h
