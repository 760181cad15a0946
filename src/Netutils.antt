-- ===== src/Netutils.antt =====
-- Addresses and prefixes (pkg/netutils). The package net of the language is a parameter.
pub mod Label
use cloudgw.Prelude.{
  Bool, List, Option, String, [], false, if◌then◌else◌, none, some, true, ℕ, ◌%◌, ◌^◌, ◌∷◌,
}

pub record NetApi : Type 1 where
  pub Ip : Type 0
  pub Net : Type 0
  -- net.ParseCIDR; none is an error
  pub parse_cidr : String → Option (Ip × Net)
  pub contains : Net → Ip → Bool
  pub show_ip : Ip → String
  -- the ones of the mask of a network
  pub mask_ones : Net → ℕ

module _ (n : NetApi) where
  open n use {Ip, Net, parse_cidr, contains, show_ip, mask_ones}

  unfoldable pub addr : String → String
  addr prefix = elim (parse_cidr prefix) [ none ↦ "" | some (ip, net) ↦ show_ip ip ]

  unfoldable pub mask_len : String → ℕ
  mask_len prefix = elim (parse_cidr prefix) [ none ↦ 0 | some (ip, net) ↦ mask_ones net % 2 ^ 32 ]

  pub any_contains : List Net → Ip → Bool
  any_contains [] ip = false
  any_contains (net ∷ nets) ip =
      let rest = any_contains nets ip in if contains net ip then true else rest

  unfoldable pub is_fip : String → List Net → Bool
  unfolding any_contains
  is_fip fip_prefix nets = elim (parse_cidr fip_prefix) [
    | none ↦ false
    | some (ip, net) ↦ any_contains nets ip
  ]
