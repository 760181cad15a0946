-- ===== src/Vpp/Dumps/Tunnels.antt =====
-- What the dumps of the tunnels return (DumpUDPTunnels, CountUDPTunnels and
-- CheckUDPTunnelTableEmpty of internal/repository/vpp/vpp.go).
use cloudgw.Govpp.{udp_encap_details, udp_encap_dump}
use cloudgw.Model.Tunnel.{VppUdpTunnel}
use cloudgw.Vpp.{Reply, VppApi, setup_reply}
use cloudgw.Vpp.Dumps.{
  check_udp_tunnel_table_empty, collected, count_udp_tunnels, dump_udp_tunnels, dumped_tunnel,
  on_tunnel, on_tunnel_count, is_empty_count, Dumped,
}
use cloudgw.Vpp.Dumps.Ends.{Answered, dump-ends, fold_rounds}
use cloudgw.Prelude.{
  List, String, [], arith, length, map, refl, ℕ, ◌+◌, ◌++◌, ◌<◌, ◌==◌, ◌∙◌, ◌∷◌, ◌≡◌, ap, nat_Eq,
  sym, append_nil,
}
use mathlib.Core.List.{append_assoc}

-- A tunnel as a message tells it.
pub record Encap : Type 0 where
  pub id : ℕ
  pub src : String
  pub dst : String
  pub port : ℕ

abbrev pub encap_message : Encap → Reply
encap_message t = setup_reply (udp_encap_details t.id t.src t.dst t.port)

-- Rounds that append one element each.
pub fold_rounds-append {ℓ κ} :
    {X : Type ℓ} {B : Type κ} (g : X → B) (acc : List B) (xs : List X)
    → fold_rounds (λ x l. l ++ g x ∷ []) acc xs ≡ acc ++ map g xs
unfolding fold_rounds
fold_rounds-append g acc [] = sym (append_nil acc)
fold_rounds-append g acc (x ∷ xs) =
    fold_rounds-append g (acc ++ g x ∷ []) xs ∙ append_assoc acc (g x ∷ []) (map g xs)

fold_rounds-count {ℓ} :
    {X : Type ℓ} (n : ℕ) (xs : List X) → fold_rounds (λ x k. k + 1) n xs ≡ n + length xs
unfolding fold_rounds
fold_rounds-count n [] = omega arith
fold_rounds-count n (x ∷ xs) = omega (arith, fold_rounds-count (n + 1) xs)

count_all {ℓ} : {X : Type ℓ} (xs : List X) → fold_rounds (λ x k. k + 1) 0 xs ≡ length xs
count_all xs = omega (arith, fold_rounds-count 0 xs)

module _ (v : VppApi) where
  -- Where the forwarder takes the two requests, tells its tunnels and answers the ping, the three
  -- functions end with fuel above the number of tunnels: DumpUDPTunnels returns the tunnels in
  -- order with their number, addresses and source port, CountUDPTunnels how many they are,
  -- and CheckUDPTunnelTableEmpty whether there is none.
  pub dump_udp_tunnels-ends :
      (ts : List Encap) (fuel : ℕ) (st : VppApi.Stream v)
      → Answered v udp_encap_dump (map encap_message ts) st
      → length ts < fuel
      → ((dump_udp_tunnels v fuel st).0
          ≡ collected (map (λ (t : Encap). dumped_tunnel v t.id t.src t.dst t.port) ts))
        × ((count_udp_tunnels v fuel st).0 ≡ collected (length ts))
        × ((check_udp_tunnel_table_empty v fuel st).0 ≡ collected (length ts == 0))
  unfolding dump_udp_tunnels count_udp_tunnels check_udp_tunnel_table_empty
  dump_udp_tunnels-ends ts fuel st s h =
      let all =
        dump-ends v (on_tunnel v) encap_message
          (λ (t : Encap) l. l ++ dumped_tunnel v t.id t.src t.dst t.port ∷ []) (λ a. refl)
          (λ x a. refl) udp_encap_dump ts fuel [] [] st s h in
      let count =
        dump-ends v (on_tunnel_count v) encap_message (λ t n. n + 1) (λ a. refl) (λ x a. refl)
          udp_encap_dump ts fuel 0 0 st s h in
      let counted : (count_udp_tunnels v fuel st).0 ≡ collected (length ts) =
        ap (λ (r : Dumped ℕ × VppApi.Stream v). r.0) count ∙ ap collected (count_all ts) in
      (
        ap (λ (r : Dumped (List VppUdpTunnel) × VppApi.Stream v). r.0) all
            ∙ ap collected (fold_rounds-append _ [] ts),
        counted,
        ap (is_empty_count v) counted,
      )
