-- ===== src/Service/Tunnels/Settled.antt =====
-- The loops of the removal of a floating ip (internal/service/tunnel_route_remove.go): which
-- tunnels they leave, and that they return.
use cloudgw.Imdb.Memdb.{MemDbLaws, no_vpp_udp_tunnel_found}
use cloudgw.Gobgp.{adv_wdraw_vpnv4_prefix, vpn_path}
use cloudgw.Imdb.Table.Change.{delete-IsValid}
use cloudgw.Imdb.Table.Invariant.{IsValid}
use cloudgw.Imdb.Table.Updates.{get-delete}
use cloudgw.Imdb.UdpTunnels.{
  UdpTunnelStorage, get_udp_tunnel, get_fip_served, del_udp_tunnel, udp_tunnel_schema,
}
use cloudgw.Model.Nlri.{BgpNlriAttrs, new_bgp_nlri_attrs}
use cloudgw.Model.Tunnel.{VppUdpTunnel}
use cloudgw.Model.Vrf.{VppVrfTable, BgpVrfTable, RouteTarget}
use cloudgw.Service.Tunnels.{announce, drop_tunnels}
use cloudgw.Service.World.{World, Config, Libs}
use mathlib.Core.Bool.{false≢true}
use cloudgw.Vpp.{VppApi}
use cloudgw.Vpp.Total.{VppLaws, vpp_del_udp_tunnel-Returns}
use cloudgw.Prelude.{
  ap, sym, subst, eq_iff, Bool, Bool-cases, List, Option, Returns, Returns-bind, Returns-mono,
  String, [], absent, arith, false, if◌then◌else◌, index, inl, inr, length, none, refl, some, true,
  ℕ, ◌+◌, ◌==◌, ◌∙◌, ◌∷◌, ◌≡◌, ◌≤◌, ◌<◌, suc, zero, nat_Eq, string_Eq,
}

module _ {A : Type 0} where
  index-Returns : (xs : List A) (i : ℕ) → i < length xs → Returns (λ _. Unit {0}) (index xs i)
  index-Returns [] i h = absurd (omega arith)
  index-Returns (x ∷ xs) zero h = tt
  index-Returns (x ∷ xs) (suc i) h = index-Returns xs i (omega arith)

module _ (l : Libs) where
  -- The storages are the same, and the forwarder was asked nothing.
  abbrev pub SameStores : World l → World l → Type 0
  SameStores w u =
      (u.fips ≡ w.fips)
      × (u.vpp_vrfs ≡ w.vpp_vrfs)
      × (u.tunnels ≡ w.tunnels)
      × (u.stream ≡ w.stream)

  adv_wdraw-Returns :
      (b : Bool) (attrs : BgpNlriAttrs) (asn : ℕ) (w : World l) (t : RouteTarget)
      (ts : List RouteTarget)
      → attrs.rt ≡ t ∷ ts
      → Returns
          (λ _. Unit {0})
          (adv_wdraw_vpnv4_prefix (Libs.net_api l) (Libs.bgp_api l) b attrs asn w.server)
  unfolding adv_wdraw_vpnv4_prefix vpn_path
  adv_wdraw-Returns b attrs asn w t ts h = rw (h, adv_wdraw_vpnv4_prefix, vpn_path) tt

  -- The announcement and the withdrawal of prefixes return, and change no storage.
  pub announce-Returns :
      (cfg : Config) (b : Bool) (vrf : VppVrfTable) (bgp_vrf : BgpVrfTable) (t : RouteTarget)
      (ts : List RouteTarget) (prefixes : List String) (w : World l)
      → bgp_vrf.import_rt ≡ t ∷ ts
      → Returns (SameStores w) (announce l cfg b vrf bgp_vrf prefixes w)
  unfolding announce new_bgp_nlri_attrs
  announce-Returns cfg b vrf bgp_vrf t ts [] w h = (refl, refl, refl, refl)
  announce-Returns cfg b vrf bgp_vrf t ts (p ∷ ps) w h =
      Returns-bind (λ _. Unit {0}) (SameStores w) _ _ (adv_wdraw-Returns b _ cfg.tf_asn w t ts h)
        (λ r u. announce-Returns cfg b vrf bgp_vrf t ts ps (record w { server = r.1 }) h)

-- The world after the tunnel is deleted in both places.
abbrev without_tunnel : (l : Libs) → String → VppApi.Stream (Libs.vpp_api l) → World l → World l
without_tunnel l nh st w = record w {
  stream = st;
  tunnels = (del_udp_tunnel (Libs.by_string l) nh w.tunnels).1;
}

module _ (l : Libs) (laws : MemDbLaws (Libs.by_string l)) where
  -- A tunnel that serves no floating ip is not in the storage.
  abbrev pub Settled : String → UdpTunnelStorage (Libs.by_string l) → Type 0
  Settled nh s =
      (get_fip_served (Libs.by_string l) nh s == 0) ≡ true
      → get_udp_tunnel (Libs.by_string l) nh s ≡ none

  deleted_view :
      (nh j : String) (s : UdpTunnelStorage (Libs.by_string l))
      → get_udp_tunnel (Libs.by_string l) j (del_udp_tunnel (Libs.by_string l) nh s).1
        ≡ (if nh == j then none else get_udp_tunnel (Libs.by_string l) j s)
  unfolding get_udp_tunnel del_udp_tunnel
  deleted_view nh j s = get-delete laws udp_tunnel_schema no_vpp_udp_tunnel_found nh j s

  abbrev served_of : Option VppUdpTunnel → ℕ
  served_of none = 0
  served_of (some tunnel) = tunnel.fip_served

  get_fip_served_view :
      (j : String) (s : UdpTunnelStorage (Libs.by_string l))
      → get_fip_served (Libs.by_string l) j s ≡ served_of (get_udp_tunnel (Libs.by_string l) j s)
  unfolding get_fip_served get_udp_tunnel
  get_fip_served_view j s = ground arith

  same_view-Settled :
      (j : String) (s t : UdpTunnelStorage (Libs.by_string l))
      → get_udp_tunnel (Libs.by_string l) j t ≡ get_udp_tunnel (Libs.by_string l) j s
      → Settled j s
      → Settled j t
  same_view-Settled j s t e h = λ z.
      e
      ∙ h (
          ap (λ (n : ℕ). n == 0)
            (get_fip_served_view j s ∙ ap served_of (sym e) ∙ sym (get_fip_served_view j t))
          ∙ z)

  del_udp_tunnel-Settled :
      (nh j : String) (s : UdpTunnelStorage (Libs.by_string l))
      → Settled j s
      → Settled j (del_udp_tunnel (Libs.by_string l) nh s).1
  del_udp_tunnel-Settled nh j s h = elim (Bool-cases (nh == j)) [
    | inl same ↦ λ z.
        deleted_view nh j s
        ∙ ap (λ (b : Bool). if b then none else get_udp_tunnel (Libs.by_string l) j s) same
    | inr other ↦
        same_view-Settled j s (del_udp_tunnel (Libs.by_string l) nh s).1
          (deleted_view nh j s
            ∙ ap (λ (b : Bool). if b then none else get_udp_tunnel (Libs.by_string l) j s) other)
          h
  ]

  deleted-Settled :
      (nh : String) (s : UdpTunnelStorage (Libs.by_string l))
      → Settled nh (del_udp_tunnel (Libs.by_string l) nh s).1
  deleted-Settled nh s = λ z.
      deleted_view nh nh s
      ∙ ap (λ (b : Bool). if b then none else get_udp_tunnel (Libs.by_string l) nh s)
          ((eq_iff nh nh).1 refl)

  -- What the loop over the next hops leaves: the other storages, and settled tunnels.
  pub record Drops (nhs : List String) (w u : World l) : Type 0 where
    pub same_fips : u.fips ≡ w.fips
    pub same_vrfs : u.vpp_vrfs ≡ w.vpp_vrfs
    pub keeps : (j : String) → Settled j w.tunnels → Settled j u.tunnels
    pub settles : (j : String) → absent j nhs ≡ false → Settled j u.tunnels
    pub stays_valid :
        IsValid laws udp_tunnel_schema w.tunnels → IsValid laws udp_tunnel_schema u.tunnels

  del_udp_tunnel-IsValid :
      (nh : String) (s : UdpTunnelStorage (Libs.by_string l))
      → IsValid laws udp_tunnel_schema s
      → IsValid laws udp_tunnel_schema (del_udp_tunnel (Libs.by_string l) nh s).1
  unfolding del_udp_tunnel
  del_udp_tunnel-IsValid nh s v =
      delete-IsValid laws udp_tunnel_schema no_vpp_udp_tunnel_found nh s v

  Drops-next :
      (nh : String) (nhs : List String) (w v u : World l)
      → v.fips ≡ w.fips
      → v.vpp_vrfs ≡ w.vpp_vrfs
      → ((j : String) → Settled j w.tunnels → Settled j v.tunnels)
      → Settled nh v.tunnels
      → (IsValid laws udp_tunnel_schema w.tunnels → IsValid laws udp_tunnel_schema v.tunnels)
      → Drops nhs v u
      → Drops (nh ∷ nhs) w u
  Drops-next nh nhs w v u f g k h i d = record {
    stays_valid = λ x. d.stays_valid (i x);
    same_fips = d.same_fips ∙ f;
    same_vrfs = d.same_vrfs ∙ g;
    keeps = λ j x. d.keeps j (k j x);
    settles = λ j a. elim (Bool-cases (nh == j)) [
      | inl same ↦ subst (λ (x : String). Settled x u.tunnels) ((eq_iff nh j).0 same) (d.keeps nh h)
      | inr other ↦ d.settles j (ground arith)
    ];
  }

  Drops-deleted :
      (nh : String) (nhs : List String) (st : VppApi.Stream (Libs.vpp_api l)) (w u : World l)
      → Drops nhs (without_tunnel l nh st w) u
      → Drops (nh ∷ nhs) w u
  Drops-deleted nh nhs st w u d =
      Drops-next nh nhs w (without_tunnel l nh st w) u refl refl
        (λ j x. del_udp_tunnel-Settled nh j w.tunnels x) (deleted-Settled nh w.tunnels)
        (del_udp_tunnel-IsValid nh w.tunnels) d

  module _ (vlaws : VppLaws (Libs.vpp_api l)) where
    -- The loop over the tunnels returns where there is a tunnel for each next hop.
    pub drop_tunnels-Returns :
        (i : ℕ) (nhs : List String) (ids : List ℕ) (w : World l)
        → i + length nhs ≤ length ids
        → Returns (Drops nhs w) (drop_tunnels l i nhs ids w)
    unfolding drop_tunnels
    drop_tunnels-Returns i [] ids w h = record {
      same_fips = refl;
      same_vrfs = refl;
      keeps = λ j x. x;
      settles = λ j a. cc;
      stays_valid = λ v. v;
    }
    drop_tunnels-Returns i (nh ∷ nhs) ids w h =
        elim (Bool-cases (get_fip_served (Libs.by_string l) nh w.tunnels == 0)) [
          | inl e ↦
              rw (e, drop_tunnels)
                (Returns-bind (λ _. Unit {0}) (Drops (nh ∷ nhs) w) _ _
                  (index-Returns ids i (omega (arith, h)))
                  (λ id u.
                    Returns-bind (λ _. Unit {0}) (Drops (nh ∷ nhs) w) _ _
                      (vpp_del_udp_tunnel-Returns vlaws id w.stream)
                      (λ r t.
                        Returns-mono _ _ _ (λ u d. Drops-deleted nh nhs r.1 w u d)
                          (drop_tunnels-Returns (suc i) nhs ids (without_tunnel l nh r.1 w)
                            (omega (arith, h))))))
          | inr e ↦
              rw (e, drop_tunnels)
                (Returns-mono _ _ _
                  (λ u d.
                    Drops-next nh nhs w w u refl refl (λ j x. x)
                      (λ z. absurd (false≢true (sym e ∙ z))) (λ v. v) d)
                  (drop_tunnels-Returns (suc i) nhs ids w (omega (arith, h))))
        ]
