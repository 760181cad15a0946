-- ===== src/Bfd/Packet.antt =====
-- Control packets and their validation (pkg/bfd/packet.go). The struct `layers.BFD` and its bytes
-- belong to the packet library; a packet here is the struct, without the raw bytes.
use cloudgw.Prelude.{
  Bool, List, Option, [], false, if◌then◌else◌, none, not, some, true, ℕ, ◌&&◌, ◌==◌, ◌↔◌, ◌∷◌, ◌≡◌,
  nat_Eq, Bool-cases, arith, refl, inl, inr,
}

-- The two bits of the state field.
pub data BfdState : Type 0 where
  admin_down down init up : BfdState

-- The diagnostics that the session sets.
pub data Diagnostic : Type 0 where
  diag_none time_expired neighbor_signal_down other_diag : Diagnostic

pub record AuthHeader : Type 0 where
  pub auth_type : ℕ
  pub key_id : ℕ
  pub sequence_number : ℕ
  pub auth_data : List ℕ

pub record Packet : Type 0 where
  pub version : ℕ
  pub diagnostic : Diagnostic
  pub state : BfdState
  pub poll : Bool
  pub final : Bool
  pub control_plane_independent : Bool
  pub auth_present : Bool
  pub demand : Bool
  pub multipoint : Bool
  pub detect_multiplier : ℕ
  pub my_discriminator : ℕ
  pub your_discriminator : ℕ
  pub desired_min_tx_interval : ℕ
  pub required_min_rx_interval : ℕ
  pub required_min_echo_rx_interval : ℕ
  pub auth_header : Option AuthHeader

-- The key of the program; type 2 is keyed MD5.
abbrev pub auth : AuthHeader
auth = record {
  auth_type = 2;
  key_id = 2;
  sequence_number = 5;
  auth_data =
      0x01 ∷ 0x02 ∷ 0x03 ∷ 0x04 ∷ 0x05 ∷ 0x06 ∷ 0x07 ∷ 0x08 ∷ 0x09 ∷ 0x10 ∷ 0x11 ∷ 0x12 ∷ 0x13
      ∷ 0x14 ∷ 0x15 ∷ 0x16 ∷ [];
}

pub data PacketError : Type 0 where
  unsupported_version auth_header_error auth_type_error auth_key_id_error : PacketError
  auth_header_data_error : PacketError

unfoldable pub same_bytes : List ℕ → List ℕ → Bool
same_bytes [] [] = true
same_bytes (x ∷ xs) (y ∷ ys) = x == y && same_bytes xs ys
same_bytes _ _ = false

-- The checks of the authentication section, in their order; no error is nil.
unfoldable pub validate_auth : Option AuthHeader → Option PacketError
validate_auth none = some auth_header_error
validate_auth (some h) =
    if not (h.auth_type == auth.auth_type)
    then some auth_type_error
    else if not (h.key_id == auth.key_id)
    then some auth_key_id_error
    else if not (same_bytes h.auth_data auth.auth_data)
    then some auth_header_data_error
    else none

unfoldable pub validate : Packet → Option PacketError
unfolding validate_auth
validate p =
    if not (p.version == 1)
    then some unsupported_version
    else if p.auth_present
    then validate_auth p.auth_header
    else none

-- The section has the type, the key and the bytes of the program's own.
abbrev pub IsAuthentic : Option AuthHeader → Type 0
IsAuthentic none = ⊥
IsAuthentic (some h) =
    (h.auth_type ≡ auth.auth_type)
    × (h.key_id ≡ auth.key_id)
    × (same_bytes h.auth_data auth.auth_data ≡ true)

validate_auth_lem : (o : Option AuthHeader) → (validate_auth o ≡ none) ↔ IsAuthentic o
unfolding validate_auth
validate_auth_lem none = (λ h. cc, λ h. absurd h)
validate_auth_lem (some a) = (λ h. ground arith, λ h. ground arith)

-- A packet is accepted exactly when its version is 1 and, if it says that it has an authentication
-- section, that section is there and has the type, the key and the bytes of the program's own.
pub validate_lem :
    (p : Packet)
    → (validate p ≡ none) ↔ ((p.version ≡ 1) × (p.auth_present ≡ true → IsAuthentic p.auth_header))
unfolding validate
validate_lem p = (
  λ h. (ground arith, λ present. (validate_auth_lem p.auth_header).0 (ground arith)),
  λ h. elim (Bool-cases p.auth_present) [
    | inl present ↦ rw (h.0, present) ((validate_auth_lem p.auth_header).1 (h.1 present))
    | inr plain ↦ rw (h.0, plain) refl
  ],
)
