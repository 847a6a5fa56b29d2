-- ===== src/Config/Settings.antt =====
-- struct arguments of candy-cli/src/config.h and arguments::parseFile of config.cc.
use candy.Base.{
  ℕ, Bool, false, ◌&&◌, List, [], ◌∷◌, Option, none, some, if◌then◌else◌, length, ◌==◌, take, ◌-◌,
}
use candy.Base.Buffer.{bytes_eq, same}
use candy.Base.Int.{ℤ, pos}
use candy.Base.Chars.{stoi}
use candy.Base.Map.{Map, lookup}
use candy.Config.File.{Poco, file_to_kv_map}

pub record Arguments : Type 0 where
  pub mode : List ℕ
  pub websocket : List ℕ
  pub password : List ℕ
  pub no_timestamp : Bool
  pub debug : Bool
  pub dhcp : List ℕ
  pub sdwan : List ℕ
  pub name : List ℕ
  pub tun : List ℕ
  pub stun : List ℕ
  pub localhost : List ℕ
  pub port : ℤ
  pub discovery : ℤ
  pub route_cost : ℤ
  pub mtu : ℤ
  pub p2p_only : Bool
  pub userspace_stack : Bool
  pub udp_port_convergence : Bool

-- What an argument has before any is read.
abbrev pub defaults : Arguments
defaults = record {
  mode = [];
  websocket = [];
  password = [];
  no_timestamp = false;
  debug = false;
  dhcp = [];
  sdwan = [];
  name = [];
  tun = [];
  stun = [];
  localhost = [];
  port = pos 0;
  discovery = pos 0;
  route_cost = pos 0;
  mtu = pos 1400;
  p2p_only = false;
  userspace_stack = false;
  udp_port_convergence = false;
}

abbrev quote : ℕ
quote = 34

-- The last character, if there is one.
abbrev last_or : ℕ → List ℕ → ℕ
last_or c [] = c
last_or c (d ∷ s) = last_or d s

-- The lambda trim of parseFile: without the quotes, if there are two.
unfoldable pub unquote : List ℕ → List ℕ
unquote [] = []
unquote (c ∷ []) = c ∷ []
unquote (c ∷ d ∷ s) =
    if c == quote && last_or d s == quote then take (length (d ∷ s) - 1) (d ∷ s) else c ∷ d ∷ s

abbrev true_text : List ℕ
true_text = b't' ∷ b'r' ∷ b'u' ∷ b'e' ∷ []

-- value == "true"
abbrev pub is_true : List ℕ → Bool
is_true v = same v true_text

-- What a handler does with its value; `none` is the exception of std::stoi.
abbrev pub Handler : Type 0
Handler = List ℕ → Arguments → Option Arguments

abbrev with_int : (ℤ → Arguments) → Option ℤ → Option Arguments
with_int f none = none
with_int f (some n) = some (f n)

abbrev pub mode_key : List ℕ
mode_key = b'm' ∷ b'o' ∷ b'd' ∷ b'e' ∷ []

abbrev pub websocket_key : List ℕ
websocket_key = b'w' ∷ b'e' ∷ b'b' ∷ b's' ∷ b'o' ∷ b'c' ∷ b'k' ∷ b'e' ∷ b't' ∷ []

abbrev pub password_key : List ℕ
password_key = b'p' ∷ b'a' ∷ b's' ∷ b's' ∷ b'w' ∷ b'o' ∷ b'r' ∷ b'd' ∷ []

abbrev pub debug_key : List ℕ
debug_key = b'd' ∷ b'e' ∷ b'b' ∷ b'u' ∷ b'g' ∷ []

abbrev pub dhcp_key : List ℕ
dhcp_key = b'd' ∷ b'h' ∷ b'c' ∷ b'p' ∷ []

abbrev pub sdwan_key : List ℕ
sdwan_key = b's' ∷ b'd' ∷ b'w' ∷ b'a' ∷ b'n' ∷ []

abbrev pub tun_key : List ℕ
tun_key = b't' ∷ b'u' ∷ b'n' ∷ []

abbrev pub stun_key : List ℕ
stun_key = b's' ∷ b't' ∷ b'u' ∷ b'n' ∷ []

abbrev pub name_key : List ℕ
name_key = b'n' ∷ b'a' ∷ b'm' ∷ b'e' ∷ []

abbrev pub discovery_key : List ℕ
discovery_key = b'd' ∷ b'i' ∷ b's' ∷ b'c' ∷ b'o' ∷ b'v' ∷ b'e' ∷ b'r' ∷ b'y' ∷ []

abbrev pub route_key : List ℕ
route_key = b'r' ∷ b'o' ∷ b'u' ∷ b't' ∷ b'e' ∷ []

abbrev pub port_key : List ℕ
port_key = b'p' ∷ b'o' ∷ b'r' ∷ b't' ∷ []

abbrev pub mtu_key : List ℕ
mtu_key = b'm' ∷ b't' ∷ b'u' ∷ []

abbrev pub localhost_key : List ℕ
localhost_key = b'l' ∷ b'o' ∷ b'c' ∷ b'a' ∷ b'l' ∷ b'h' ∷ b'o' ∷ b's' ∷ b't' ∷ []

abbrev pub p2p_only_key : List ℕ
p2p_only_key = b'p' ∷ b'2' ∷ b'p' ∷ b'-' ∷ b'o' ∷ b'n' ∷ b'l' ∷ b'y' ∷ []

abbrev pub userspace_stack_key : List ℕ
userspace_stack_key =
    b'u' ∷ b's' ∷ b'e' ∷ b'r' ∷ b's' ∷ b'p' ∷ b'a' ∷ b'c' ∷ b'e' ∷ b'-' ∷ b's' ∷ b't' ∷ b'a' ∷ b'c'
    ∷ b'k' ∷ []

abbrev pub udp_port_convergence_key : List ℕ
udp_port_convergence_key =
    b'u' ∷ b'd' ∷ b'p' ∷ b'-' ∷ b'p' ∷ b'o' ∷ b'r' ∷ b't' ∷ b'-' ∷ b'c' ∷ b'o' ∷ b'n' ∷ b'v' ∷ b'e'
    ∷ b'r' ∷ b'g' ∷ b'e' ∷ b'n' ∷ b'c' ∷ b'e' ∷ []

unfoldable pub cfg_handlers : Map (List ℕ) Handler
cfg_handlers =
    (mode_key, (λ v a. some (record a { mode = v })))
    ∷ (websocket_key, (λ v a. some (record a { websocket = v })))
    ∷ (password_key, (λ v a. some (record a { password = v })))
    ∷ (debug_key, (λ v a. some (record a { debug = is_true v })))
    ∷ (dhcp_key, (λ v a. some (record a { dhcp = v })))
    ∷ (sdwan_key, (λ v a. some (record a { sdwan = v })))
    ∷ (tun_key, (λ v a. some (record a { tun = v })))
    ∷ (stun_key, (λ v a. some (record a { stun = v })))
    ∷ (name_key, (λ v a. some (record a { name = v })))
    ∷ (discovery_key, (λ v a. with_int (λ n. record a { discovery = n }) (stoi v)))
    ∷ (route_key, (λ v a. with_int (λ n. record a { route_cost = n }) (stoi v)))
    ∷ (port_key, (λ v a. with_int (λ n. record a { port = n }) (stoi v)))
    ∷ (mtu_key, (λ v a. with_int (λ n. record a { mtu = n }) (stoi v)))
    ∷ (localhost_key, (λ v a. some (record a { localhost = v })))
    ∷ (p2p_only_key, (λ v a. some (record a { p2p_only = is_true v })))
    ∷ (userspace_stack_key, (λ v a. some (record a { userspace_stack = is_true v })))
    ∷ (udp_port_convergence_key, (λ v a. some (record a { udp_port_convergence = is_true v })))
    ∷ []

-- A value without quotes for the handler of its key; a key without one is only logged.
unfoldable pub handle_config : Option Handler → List ℕ → Arguments → Option Arguments
handle_config none v a = some a
handle_config (some h) v a = h (unquote v) a

unfoldable pub handle_configs : Map (List ℕ) (List ℕ) → Arguments → Option Arguments
handle_configs [] a = some a
handle_configs ((k, v) ∷ m) a = elim (handle_config (lookup k cfg_handlers) v a) [
  | none ↦ none
  | some a' ↦ handle_configs m a'
]

-- The arguments after the file, or `none` where the program exits. Each key has a field of its
-- own, so that the order of the map does not matter.
unfoldable pub parse_file : Poco → List ℕ → Arguments → Option Arguments
parse_file p text a = handle_configs (file_to_kv_map p text) a
