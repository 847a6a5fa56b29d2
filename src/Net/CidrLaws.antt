-- ===== src/Net/CidrLaws.antt =====
-- The text form of an address: round trip and malformed input.
use native.Mathlib.Numerals.{add-one}
use candy.Base.{
  ℕ, ◌≤◌, ◌<◌, ◌≡◌, refl, ap, ◌∙◌, Bool, true, false, List, ◌∷◌, ◌++◌, Option, none, some, ◌==◌,
  arith, take-append,
}
use candy.Base.Int.{ℤ, pos, negsuc}
use candy.Base.Table.{passes_below, passed}
use candy.Base.Chars.{
  drop-append_cons, find_char-append, find_char-Lacks, Lacks, stoi, to_string, slash,
}
use candy.Net.Ip4.{Ip4, from_prefix, to_prefix}
use candy.Net.Address.{Address}
use candy.Net.Cidr.{
  IpText, returns, overrun, host_text, mask_text, set_host, set_mask, from_cidr, to_cidr,
}
use candy.Net.Prefix.{IsMask, from_prefix-eq-none}

-- The documented behaviour of Poco::Net::IPAddress on IPv4 addresses.
pub record IpTextLaws (t : IpText) : Type 0 where
  pub parse_print : (ip : Ip4) → t.parse (t.print ip) ≡ some ip
  pub no_slash : (ip : Ip4) → Lacks slash (t.print ip)

prefix_row : Option ℤ → ℕ → Bool
prefix_row none p = false
prefix_row (some (pos q)) p = q == p
prefix_row (some (negsuc q)) p = false

prefix_table : passes_below (λ p. prefix_row (stoi (to_string p)) p) 33 ≡ true
unfolding passes_below prefix_row stoi to_string
prefix_table = refl

prefix_row_sound : (o : Option ℤ) (p : ℕ) → prefix_row o p ≡ true → o ≡ some (pos p)
unfolding prefix_row
prefix_row_sound none p h = cc
prefix_row_sound (some (pos q)) p h = ground arith
prefix_row_sound (some (negsuc q)) p h = cc

stoi-to_string : (p : ℕ) → p ≤ 32 → stoi (to_string p) ≡ some (pos p)
stoi-to_string p h =
    prefix_row_sound _ p
      (passed (λ p. prefix_row (stoi (to_string p)) p) 33 prefix_table p (omega arith))

host_text-append : (xs ys : List ℕ) → Lacks slash xs → host_text (xs ++ slash ∷ ys) ≡ xs
unfolding host_text
host_text-append xs ys h =
    rw (find_char-append slash xs ys h, host_text) (take-append xs (slash ∷ ys))

mask_text-append : (xs ys : List ℕ) → Lacks slash xs → mask_text (xs ++ slash ∷ ys) ≡ ys
unfolding mask_text
mask_text-append xs ys h =
    rw (find_char-append slash xs ys h, mask_text, add-one) (drop-append_cons xs slash ys)

texts_without_slash : (s : List ℕ) → Lacks slash s → (host_text s ≡ s) × (mask_text s ≡ s)
unfolding host_text mask_text
texts_without_slash s h =
    (rw (find_char-Lacks slash s h, host_text), rw (find_char-Lacks slash s h, mask_text))

module _ (t : IpText) (a : Address) where
  -- Text that splits into a readable host and a readable prefix length.
  from_cidr_parts :
      (s : List ℕ) (ip : Ip4) (o : Option ℤ)
      → t.parse (host_text s) ≡ some ip
      → stoi (mask_text s) ≡ o
      → from_cidr t a s ≡ set_host (record a { host = ip }) o
  unfolding from_cidr
  from_cidr_parts s ip o e k = rw (e, k, from_cidr)

  -- Text with an unreadable host changes nothing and is reported.
  from_cidr_bad_host :
      (s : List ℕ) → t.parse (host_text s) ≡ none → from_cidr t a s ≡ returns a (negsuc 0)
  unfolding from_cidr
  from_cidr_bad_host s e = rw (e, from_cidr)

  -- Reading back what toCidr writes gives the address, whatever the object held before, for every
  -- address whose mask is the one of some prefix length.
  pub from_cidr-to_cidr :
      (laws : IpTextLaws t) (b : Address) (p : ℕ)
      → IsMask p b.mask
      → from_cidr t a (to_cidr t b) ≡ returns b (pos 0)
  from_cidr-to_cidr laws b p m =
      let text = t.print b.host in
      let length_text = to_string (to_prefix b.mask) in
      let readable : stoi length_text ≡ some (pos p) =
        ap (λ n. stoi (to_string n)) m.counted ∙ stoi-to_string p m.short in
      let lacks = laws.no_slash b.host in
      unfold to_cidr in
      from_cidr_parts (text ++ slash ∷ length_text) b.host (some (pos p))
        (ap t.parse (host_text-append text length_text lacks) ∙ laws.parse_print b.host)
        (ap stoi (mask_text-append text length_text lacks) ∙ readable)
      ∙ (unfold set_host in ap (set_mask (record a { host = b.host })) m.made)

  -- A prefix length over 32 makes fromCidr write past the mask, whatever the host is.
  pub from_cidr_overrun :
      (s : List ℕ) (ip : Ip4) (p : ℕ)
      → t.parse (host_text s) ≡ some ip
      → stoi (mask_text s) ≡ some (pos p)
      → 32 < p
      → from_cidr t a s ≡ overrun
  from_cidr_overrun s ip p e k h =
      from_cidr_parts s ip (some (pos p)) e k
      ∙ (unfold set_host in ap (set_mask (record a { host = ip })) (from_prefix-eq-none p h))

  -- Text without a slash is no error: the number that the host begins with is taken for the
  -- prefix length too, and the call reports success.
  pub from_cidr_without_slash :
      (s : List ℕ) (ip : Ip4) (p : ℕ) (m : Ip4)
      → Lacks slash s
      → t.parse s ≡ some ip
      → stoi s ≡ some (pos p)
      → from_prefix (pos p) ≡ some m
      → from_cidr t a s ≡ returns (record { host = ip; mask = m }) (pos 0)
  from_cidr_without_slash s ip p m h e k f =
      let (host_is, mask_is) = texts_without_slash s h in
      from_cidr_parts s ip (some (pos p)) (ap t.parse host_is ∙ e) (ap stoi mask_is ∙ k)
      ∙ (unfold set_host in ap (set_mask (record a { host = ip })) f)
