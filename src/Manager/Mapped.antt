-- ===== src/Manager/Mapped.antt =====
-- The XOR-mapped address in the answer of a STUN server.
use candy.Base.{
  ℕ, suc, ◌+◌, ◌*◌, ◌/◌, ◌%◌, ◌<◌, bit_xor, ◌≡◌, refl, sym, ap, ap₂, ◌∙◌, false, List, [], ◌∷◌,
  some, arith, ltb, length, ◌==◌,
}
use candy.Base.Bits.Xor.{bit_xor_cancel, bit_xor-lt, bit_xor_split}
use candy.Base.Buffer.{slice}
use candy.Net.Order.{Endian, little, big, load, store, ntoh, hton, le_value, be_value}
use candy.Net.RoundTrip.{le_bytes-le_value, be_bytes-be_value}
use candy.Net.Ip4.{raw, of_raw, ip_empty}
use candy.Net.Value.{IsRaw}
use candy.Peer.State.{SocketAddress}
use candy.Manager.State.{World, Manager}
use candy.Manager.Stun.{
  mapped, read16, read_at, read_mapped, ends, attribute, visit, find_mapped, response_size, cookie,
  found, tell_peers, handle_stun_response,
}
use candy.Manager.StunLaws.{two_bytes}

-- A binding response with one attribute, XOR-MAPPED-ADDRESS, byte by byte as RFC 5389 lays it out;
-- `id` gives the transaction's twelve bytes.
pub response : (ℕ → ℕ) → SocketAddress → List ℕ
response id a =
    1
    ∷ 1
    ∷ 0
    ∷ 12
    ∷ 0x21
    ∷ 0x12
    ∷ 0xa4
    ∷ 0x42
    ∷ id 0
    ∷ id 1
    ∷ id 2
    ∷ id 3
    ∷ id 4
    ∷ id 5
    ∷ id 6
    ∷ id 7
    ∷ id 8
    ∷ id 9
    ∷ id 10
    ∷ id 11
    ∷ 0
    ∷ 0x20
    ∷ 0
    ∷ 8
    ∷ 0
    ∷ 1
    ∷ bit_xor (a.port / 256) 0x21
    ∷ bit_xor (a.port % 256) 0x12
    ∷ bit_xor a.host.raw0 0x21
    ∷ bit_xor a.host.raw1 0x12
    ∷ bit_xor a.host.raw2 0xa4
    ∷ bit_xor a.host.raw3 0x42
    ∷ []

byte-bit_xor : (x c : ℕ) → x < 256 → c < 256 → bit_xor x c < 256
byte-bit_xor x c h k = bit_xor-lt 8 x c h k

-- Byte by byte, or the number at once.
bit_xor-le_value :
    (x c v w : ℕ)
    → x < 256
    → c < 256
    → bit_xor (x + 256 * v) (c + 256 * w) ≡ bit_xor x c + 256 * bit_xor v w
bit_xor-le_value x c v w h k =
    ap₂ bit_xor (omega arith) (omega arith) ∙ bit_xor_split v w 8 x c h k ∙ omega arith

plus_none : (x : ℕ) → x + 256 * 0 ≡ x
plus_none x = omega arith

four-bit_xor :
    (x0 x1 x2 x3 c0 c1 c2 c3 : ℕ)
    → x0 < 256
    → x1 < 256
    → x2 < 256
    → c0 < 256
    → c1 < 256
    → c2 < 256
    → le_value (bit_xor x0 c0 ∷ bit_xor x1 c1 ∷ bit_xor x2 c2 ∷ bit_xor x3 c3 ∷ [])
      ≡ bit_xor (le_value (x0 ∷ x1 ∷ x2 ∷ x3 ∷ [])) (le_value (c0 ∷ c1 ∷ c2 ∷ c3 ∷ []))
four-bit_xor x0 x1 x2 x3 c0 c1 c2 c3 h0 h1 h2 k0 k1 k2 = sym (
    bit_xor-le_value x0 c0 _ _ h0 k0
    ∙ ap (λ t. bit_xor x0 c0 + 256 * t)
        (bit_xor-le_value x1 c1 _ _ h1 k1
          ∙ ap (λ t. bit_xor x1 c1 + 256 * t)
              (bit_xor-le_value x2 c2 _ _ h2 k2
                ∙ ap (λ t. bit_xor x2 c2 + 256 * t)
                    (ap₂ bit_xor (plus_none x3) (plus_none c3) ∙ sym (plus_none (bit_xor x3 c3))))))

module _ (a : SocketAddress) (bytes : IsRaw a.host) (short : a.port < 65536) where
  abbrev hidden : List ℕ
  hidden =
      bit_xor a.host.raw0 0x21
      ∷ bit_xor a.host.raw1 0x12
      ∷ bit_xor a.host.raw2 0xa4
      ∷ bit_xor a.host.raw3 0x42
      ∷ []

  port_back :
      (e : Endian)
      → bit_xor
          (ntoh e 2 (load e (bit_xor (a.port / 256) 0x21 ∷ bit_xor (a.port % 256) 0x12 ∷ [])))
          0x2112
        ≡ a.port
  port_back e =
      ap (λ t. bit_xor t 0x2112)
        (two_bytes e _ _ (byte-bit_xor (a.port / 256) 0x21 (omega arith) (omega arith))
          (byte-bit_xor (a.port % 256) 0x12 (omega arith) (omega arith)))
      ∙ bit_xor_split (bit_xor (a.port / 256) 0x21) 0x21 8 (bit_xor (a.port % 256) 0x12) 0x12
          (byte-bit_xor (a.port % 256) 0x12 (omega arith) (omega arith)) (omega arith)
      ∙ omega (arith, bit_xor_cancel (a.port / 256) 0x21, bit_xor_cancel (a.port % 256) 0x12)

  host_back : (e : Endian) → bit_xor (load e hidden) (hton e 4 cookie) ≡ load e (raw a.host)
  unfolding load hton
  host_back little =
      ap (λ t. bit_xor t (le_value (0x21 ∷ 0x12 ∷ 0xa4 ∷ 0x42 ∷ [])))
        (four-bit_xor a.host.raw0 a.host.raw1 a.host.raw2 a.host.raw3 0x21 0x12 0xa4 0x42
          bytes.byte0 bytes.byte1 bytes.byte2 (omega arith) (omega arith) (omega arith))
      ∙ bit_xor_cancel (le_value (raw a.host)) _
  host_back big =
      ap (λ t. bit_xor t (le_value (0x42 ∷ 0xa4 ∷ 0x12 ∷ 0x21 ∷ [])))
        (four-bit_xor a.host.raw3 a.host.raw2 a.host.raw1 a.host.raw0 0x42 0xa4 0x12 0x21
          bytes.byte3 bytes.byte2 bytes.byte1 (omega arith) (omega arith) (omega arith))
      ∙ bit_xor_cancel (be_value (raw a.host)) _

  visited :
      (id : ℕ → ℕ) (e : Endian)
      → visit e 0 12 (response id a)
        ≡ ends (
            mapped
              (bit_xor
                (ntoh e 2 (load e (bit_xor (a.port / 256) 0x21 ∷ bit_xor (a.port % 256) 0x12 ∷ [])))
                0x2112)
              (bit_xor (load e hidden) (hton e 4 cookie)))
  unfolding response visit attribute read16 read_at read_mapped ntoh load
  visited id little = refl
  visited id big = refl

  found_mapped :
      (id : ℕ → ℕ) (e : Endian) (fuel : ℕ)
      → find_mapped (suc fuel) e 0 12 (response id a) ≡ mapped a.port (load e (raw a.host))
  unfolding find_mapped
  found_mapped id e fuel = rw (visited id e, find_mapped) (ap₂ mapped (port_back e) (host_back e))

  stored : (e : Endian) → of_raw (store e 4 (load e (raw a.host))) ≡ a.host
  unfolding load store
  stored little = ap of_raw (
      le_bytes-le_value (raw a.host) (bytes.byte0, (bytes.byte1, (bytes.byte2, (bytes.byte3, tt)))))
  stored big = ap of_raw (
      be_bytes-be_value (raw a.host) (bytes.byte0, (bytes.byte1, (bytes.byte2, (bytes.byte3, tt)))))

  not_zero : (e : Endian) → ip_empty a.host ≡ false → (load e (raw a.host) == 0) ≡ false
  unfolding load ip_empty
  not_zero little h = ground arith
  not_zero big h = ground arith

  header :
      (id : ℕ → ℕ) (e : Endian)
      → (ntoh e 2 (load e (slice 0 2 (response id a))) ≡ 0x0101)
        × (ntoh e 2 (load e (slice 2 2 (response id a))) ≡ 12)
  unfolding response ntoh load
  header id little = (refl, refl)
  header id big = (refl, refl)

  searched :
      (w : World) (s : Manager) (id : ℕ → ℕ)
      → handle_stun_response w (response id a) s
        ≡ found w (mapped a.port (load w.endian (raw a.host))) s
  unfolding handle_stun_response
  searched w s id =
      let h = header id w.endian in
      let long : ltb (length (response id a)) response_size ≡ false = unfold response in refl in
      rw (long, h.0, h.1, found_mapped id w.endian 65535)

-- handleStunResponse for a response that a STUN server makes for an address of bytes with a port of
-- 16 bits, both not zero: exactly that address becomes the client's own, and every peer is told,
-- whatever the transaction's bytes are and whichever byte order the host has.
pub stun_address_is_learnt :
    (w : World) (s : Manager) (id : ℕ → ℕ) (a : SocketAddress)
    → IsRaw a.host
    → a.port < 65536
    → ip_empty a.host ≡ false
    → (a.port == 0) ≡ false
    → handle_stun_response w (response id a) s
      ≡ some (
          tell_peers w s.peers (record s { stun = record (s.stun) { ip = a.host; port = a.port } }))
stun_address_is_learnt w s id a bytes short some_host some_port =
    searched a bytes short w s id
    ∙ (unfold found in
        rw (not_zero a bytes short w.endian some_host, some_port, stored a bytes short w.endian))
