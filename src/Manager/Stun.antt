-- ===== src/Manager/Stun.antt =====
-- PeerManager::handleStunResponse: the address that a STUN server saw.
use candy.Base.{
  ℕ, zero, suc, ◌+◌, bit_xor, not, ◌||◌, List, [], ◌∷◌, ◌++◌, Option, none, some, if◌then◌else◌,
  ◌==◌, ltb, length,
}
use candy.Base.Buffer.{slice}
use candy.Base.Results.{◌>>=◌}
use candy.Base.Map.{Map}
use candy.Net.Order.{Endian, load, store, ntoh, hton}
use candy.Net.Ip4.{Ip4, of_raw}
use candy.Peer.State.{Peer}
use candy.Peer.Calls
use candy.Manager.State.{World, Manager, Result, peer_world}
use candy.Manager.Queue.{of_peer}

-- sizeof(StunResponse): type, length, cookie, id.
abbrev pub response_size : ℕ
response_size = 20

-- A read at an index of c_str(), which has a zero behind the text.
unfoldable pub read_at : Endian → ℕ → ℕ → List ℕ → Option ℕ
read_at e w i b =
    if ltb (length b + 1) (i + w) then none else some (load e (slice i w (b ++ 0 ∷ [])))

unfoldable pub read16 : Endian → ℕ → List ℕ → Option ℕ
read16 e i b = read_at e 2 i b >>= λ v. some (ntoh e 2 v)

-- How the loop ends: with a port and an address as the host holds them, at the end of the
-- attributes, or with a read behind the text. The last case does not occur.
pub data Search : Type 0 where
  mapped : ℕ → ℕ → Search
  absent : Search
  overread : Search
  no_fuel : Search

abbrev pub mapped_at : Endian → ℕ → ℕ → Option ℕ → Option ℕ → Search
mapped_at e port_mask ip_mask (some port) (some ip) =
    mapped (bit_xor port port_mask) (bit_xor ip ip_mask)
mapped_at e port_mask ip_mask none ip = overread
mapped_at e port_mask ip_mask (some port) none = overread

-- Behind type, length and version stand the port and the address.
unfoldable pub read_mapped : Endian → ℕ → ℕ → ℕ → List ℕ → Search
read_mapped e port_mask ip_mask at b =
    mapped_at e port_mask ip_mask (read16 e (at + 6) b) (read_at e 4 (at + 8) b)

-- One round of the loop: how it ends, or where it goes on.
pub data Visit : Type 0 where
  ends : Search → Visit
  continues : ℕ → Visit

abbrev pub skip : ℕ → Option ℕ → Visit
skip pos none = ends overread
skip pos (some size) = continues (pos + 4 + size)

-- The magic cookie, which a XOR-mapped address is combined with.
abbrev pub cookie : ℕ
cookie = 0x2112a442

unfoldable pub attribute : Endian → ℕ → List ℕ → Option ℕ → Visit
attribute e pos b none = ends overread
attribute e pos b (some kind) =
    if kind == 1
    then ends (read_mapped e 0 0 (response_size + pos) b)
    else if kind == 0x20
    then ends (read_mapped e 0x2112 (hton e 4 cookie) (response_size + pos) b)
    else skip pos (read16 e (response_size + pos + 2) b)

unfoldable pub visit : Endian → ℕ → ℕ → List ℕ → Visit
visit e pos limit b =
    if ltb pos limit then attribute e pos b (read16 e (response_size + pos) b) else ends absent

-- The loop over the attributes, from `pos` on.
unfoldable pub find_mapped : ℕ → Endian → ℕ → ℕ → List ℕ → Search
find_mapped zero e pos limit b = no_fuel
find_mapped (suc fuel) e pos limit b = elim (visit e pos limit b) [
  | ends found ↦ found
  | continues next ↦ find_mapped fuel e next limit b
]

-- Every peer is told, each in the state that the map holds.
unfoldable pub tell_peers : World → Map Ip4 Peer → Manager → Result
tell_peers w [] s = (s, [])
tell_peers w ((ip, p) ∷ m) s =
    let (s', out) = of_peer w ip (Calls.handle_stun_response (peer_world w s) p) s in
    let (s'', more) = tell_peers w m s' in (s'', out ++ more)

unfoldable pub found : World → Search → Manager → Option Result
found w (mapped port ip) s =
    if ip == 0 || port == 0
    then some (s, [])
    else (let s' = record s {
      stun = record (s.stun) { ip = of_raw (store w.endian 4 ip); port = port };
    } in
        some (tell_peers w s'.peers s'))
found w absent s = some (s, [])
found w overread s = none
found w no_fuel s = none

-- The rounds of the loop are fewer than the greatest length.
abbrev pub stun_fuel : ℕ
stun_fuel = 65536

unfoldable pub handle_stun_response : World → List ℕ → Manager → Option Result
handle_stun_response w b s =
    if ltb (length b) response_size
    then some (s, [])
    else if not (ntoh w.endian 2 (load w.endian (slice 0 2 b)) == 0x0101)
    then some (s, [])
    else found w
        (find_mapped stun_fuel w.endian 0 (ntoh w.endian 2 (load w.endian (slice 2 2 b))) b) s
