-- ===== src/Bfd/Coding.antt =====
-- Packets as bytes (DecodePacket, checkLayers and EncodePacket of pkg/bfd/packet.go). The packet
-- library is a parameter: what it makes of bytes, and the bytes that it makes of a packet.
use cloudgw.Bfd.Packet.{Packet, PacketError, AuthHeader, validate, auth}
use cloudgw.Bfd.Receive.{control_packet}
use cloudgw.Bfd.Receive.Handshake.{validate-control_packet}
use cloudgw.Bfd.Session.{Session}
use mathlib.Core.Option.{some-injective}
use cloudgw.Imdb.Table.View.{is_some}
use cloudgw.Prelude.{
  Bool, List, Option, [], arith, false, if◌then◌else◌, length, ltb, none, not, refl, some, true, ℕ,
  ◌+◌, ◌<◌, ◌==◌, ◌^◌, ◌∷◌, ◌≡◌, nat_Eq, subst, ap,
}

pub data LayerType : Type 0 where
  bfd_layer payload_layer : LayerType
  other_layer : ℕ → LayerType

-- The application layer is there where it is one of BFD.
pub record Decoded : Type 0 where
  pub error_layer : Bool
  pub layers : List LayerType
  pub application_layer : Option Packet

pub record PacketApi : Type 0 where
  pub new_packet : List ℕ → Decoded
  pub serialize : Packet → Option (List ℕ)

pub data DecodeError : Type 0 where
  packet_decode no_bfd_layer_found layer_mismatch : DecodeError
  layer_differs : ℕ → DecodeError
  invalid : PacketError → DecodeError

pub data Decoding : Type 0 where
  decoded : Packet → Decoding
  undecoded : DecodeError → Decoding

abbrev same_layer : LayerType → LayerType → Bool
same_layer bfd_layer bfd_layer = true
same_layer payload_layer payload_layer = true
same_layer (other_layer a) (other_layer b) = a == b
same_layer _ _ = false

-- The loop over the wanted layers, each compared with the layer at its place.
unfoldable pub check_wanted : ℕ → List LayerType → List LayerType → Option DecodeError
check_wanted i ls [] = none
check_wanted i [] (w ∷ want) = some layer_mismatch
check_wanted i (l ∷ ls) (w ∷ want) =
    let rest = check_wanted (i + 1) ls want in
    if same_layer w payload_layer
    then rest
    else if not (same_layer l w)
    then some (layer_differs i)
    else rest

unfoldable pub check_layers : List LayerType → List LayerType → Option DecodeError
unfolding check_wanted
check_layers ls want =
    if ltb (length ls) (length want) then some layer_mismatch else check_wanted 0 ls want

module _ (api : PacketApi) where
  open api use {new_packet, serialize}

  unfoldable pub decode_packet : List ℕ → Decoding
  unfolding check_layers
  decode_packet bytes =
      let p = new_packet bytes in
      if p.error_layer
      then undecoded packet_decode
      else elim (check_layers p.layers (bfd_layer ∷ [])) [
        | some e ↦ undecoded e
        | none ↦ elim p.application_layer [
          | none ↦ undecoded no_bfd_layer_found
          | some packet ↦ elim (validate packet) [
            | some e ↦ undecoded (invalid e)
            | none ↦ decoded packet
          ]
        ]
      ]

  unfoldable pub encode_packet : Packet → List ℕ
  encode_packet p = elim (serialize p) [ none ↦ [] | some bytes ↦ bytes ]

module _ (api : PacketApi) (p : Packet) (bytes : List ℕ) where
  encode-some : PacketApi.serialize api p ≡ some bytes → encode_packet api p ≡ bytes
  unfolding encode_packet
  encode-some e = ground arith

  decode-valid :
      PacketApi.new_packet api bytes
        ≡ record { error_layer = false; layers = bfd_layer ∷ []; application_layer = some p }
      → validate p ≡ none
      → decode_packet api bytes ≡ decoded p
  unfolding decode_packet
  decode-valid d v =
      rw
        (
          ap (λ (x : Decoded). x.error_layer) d,
          ap (λ (x : Decoded). x.layers) d,
          ap (λ (x : Decoded). x.application_layer) d,
          decode_packet,
          v,
        )
        refl

-- The fields have the widths of the format, and a section of authentication by keyed MD5 is there
-- exactly where the packet says so.
pub record Fits (p : Packet) : Type 0 where
  pub version_fits : p.version < 2 ^ 3
  pub multiplier_fits : p.detect_multiplier < 2 ^ 8
  pub my_fits : p.my_discriminator < 2 ^ 32
  pub your_fits : p.your_discriminator < 2 ^ 32
  pub tx_fits : p.desired_min_tx_interval < 2 ^ 32
  pub rx_fits : p.required_min_rx_interval < 2 ^ 32
  pub echo_fits : p.required_min_echo_rx_interval < 2 ^ 32
  pub marked : is_some p.auth_header ≡ p.auth_present
  pub header_fits :
      (h : AuthHeader)
      → p.auth_header ≡ some h
      → (h.auth_type ≡ 2)
        × (h.key_id < 2 ^ 8)
        × (h.sequence_number < 2 ^ 32)
        × (length h.auth_data ≡ 16)

-- A packet that fits is read back as the only layer.
pub record CodingLaws (api : PacketApi) : Type 0 where
  pub read_back :
      (p : Packet)
      → Fits p
      → (bytes : List ℕ) × (PacketApi.serialize api p ≡ some bytes)
        × (PacketApi.new_packet api bytes
            ≡ record { error_layer = false; layers = bfd_layer ∷ []; application_layer = some p })

header_of : Bool → Option AuthHeader
header_of b = if b then some auth else none

header_of-fits :
    (b : Bool) (h : AuthHeader)
    → header_of b ≡ some h
    → (h.auth_type ≡ 2)
      × (h.key_id < 2 ^ 8)
      × (h.sequence_number < 2 ^ 32)
      × (length h.auth_data ≡ 16)
unfolding header_of
header_of-fits true h e =
    subst
      (λ (x : AuthHeader).
        (x.auth_type ≡ 2)
        × (x.key_id < 2 ^ 8)
        × (x.sequence_number < 2 ^ 32)
        × (length x.auth_data ≡ 16))
      (some-injective auth h e) (refl, omega arith, omega arith, refl)
header_of-fits false h e = absurd (cc)

header_of-marked : (b : Bool) → is_some (header_of b) ≡ b
unfolding header_of
header_of-marked true = refl
header_of-marked false = refl

module _ (s : Session) (multiplier : s.detect_mult < 2 ^ 8) (mine : s.local_discr < 2 ^ 32)
    (yours : s.remote_discr < 2 ^ 32) (tx : s.desired_min_tx_interval < 2 ^ 32)
    (rx : s.required_min_rx_interval < 2 ^ 32) where
  control_packet-Fits : (final : Bool) → Fits (control_packet final s)
  unfolding control_packet header_of
  control_packet-Fits final = record {
    version_fits = omega arith;
    multiplier_fits = multiplier;
    my_fits = mine;
    your_fits = yours;
    tx_fits = tx;
    rx_fits = rx;
    echo_fits = omega arith;
    marked = header_of-marked s.auth_type;
    header_fits = λ h e. header_of-fits s.auth_type h e;
  }

  -- A packet that a session sends is decoded as it was, with authentication and without, where the
  -- numbers of the session have the widths of the format.
  pub decode_packet-encode_packet :
      {api : PacketApi} (laws : CodingLaws api) (final : Bool)
      → decode_packet api (encode_packet api (control_packet final s))
        ≡ decoded (control_packet final s)
  decode_packet-encode_packet {api} laws final =
      let (bytes, e, d) = laws.read_back (control_packet final s) (control_packet-Fits final) in
      rw (encode-some api (control_packet final s) bytes e)
        (decode-valid api (control_packet final s) bytes d (validate-control_packet final s))
