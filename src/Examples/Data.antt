-- ===== src/Examples/Data.antt =====
-- Inputs that the examples share.
use candy.Base.{ℕ, ◌+◌, ◌-◌, refl, List, [], ◌∷◌, Option, none, some, arith}
use candy.Base.{replicate}
use candy.Net.Order.{Endian}
use candy.Net.Ip4.{Ip4, from_prefix}
use candy.Net.Address.{Address}
use candy.Net.Cidr.{IpText}
use candy.Net.CidrLaws.{IpTextLaws}
use candy.Net.Prefix.{IsMask, from_prefix-IsMask}
use candy.Net.Host.{IsCidr}
use candy.Server.State.{Env}

abbrev pub mask24 : Ip4
mask24 = record { raw0 = 255; raw1 = 255; raw2 = 255; raw3 = 0 }

abbrev pub gateway : Ip4
gateway = record { raw0 = 192; raw1 = 168; raw2 = 202; raw3 = 1 }

abbrev pub laptop : Ip4
laptop = record { raw0 = 192; raw1 = 168; raw2 = 202; raw3 = 7 }

abbrev pub network : Address
network = record { host = gateway; mask = mask24 }

pub mask24-IsMask : IsMask 24 mask24
unfolding from_prefix
mask24-IsMask = from_prefix-IsMask 24 mask24 (omega arith) refl

pub network-IsCidr : IsCidr 24 network
network-IsCidr = record {
  host_bytes = record {
    byte0 = omega arith;
    byte1 = omega arith;
    byte2 = omega arith;
    byte3 = omega arith;
  };
  mask_ones = mask24-IsMask;
}

-- A text for addresses: one character for each byte.
abbrev pub parse_text : List ℕ → Option Ip4
parse_text (a ∷ b ∷ c ∷ d ∷ []) =
    some (record { raw0 = a - 48; raw1 = b - 48; raw2 = c - 48; raw3 = d - 48 })
parse_text _ = none

abbrev pub print_text : Ip4 → List ℕ
print_text ip = (ip.raw0 + 48) ∷ (ip.raw1 + 48) ∷ (ip.raw2 + 48) ∷ (ip.raw3 + 48) ∷ []

abbrev pub text : IpText
text = record { parse = parse_text; print = print_text }

pub text-IpTextLaws : IpTextLaws text
text-IpTextLaws = record { parse_print = λ ip. ground arith; no_slash = λ ip. ground arith }

abbrev pub zeros : List ℕ → List ℕ
zeros m = replicate 32 0

abbrev pub env : Env
env = record { sha256 = zeros; text = text; endian = Endian.little; now = 0 }
