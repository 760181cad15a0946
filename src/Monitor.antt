-- ===== src/Monitor.antt =====
-- The watch of the forwarder's main interface by pings (internal/monitor/vpp_interface.go) and of
-- the connection to the forwarder (internal/monitor/vpp_conn.go). The results of the pings are
-- those that the environment gives to one after the other.
use cloudgw.App.Bgp.{delete_peers}
use cloudgw.Config.{AppConfig}
use cloudgw.Gobgp.Server.{BgpControl}
use cloudgw.Model.Peer.{BgpPeer}
use cloudgw.Netutils.{NetApi, addr}
use cloudgw.Prelude.{
  Bool, List, String, [], false, if◌then◌else◌, leb, suc, true, zero, ℕ, ◌+◌, ◌==◌, ◌||◌, ◌∷◌,
  string_Eq,
}

-- What IsAddressAlive returns.
pub data Probe : Type 0 where
  alive dead failed_probe : Probe

-- What follows for the loop over the addresses.
pub data Verdict : Type 0 where
  goes_on breaks exits : Verdict

abbrev pub is_exit : Verdict → Bool
is_exit exits = true
is_exit _ = false

abbrev pub monitored_address : NetApi → AppConfig → List String
monitored_address n cfg = addr n cfg.vpp.tun_local_ip ∷ []

module _ (probe : ℕ → String → Probe) where
  -- The count of failures and the number of the next ping, after the rounds that are left.
  unfoldable pub count_fails : ℕ → String → ℕ → ℕ → ℕ × ℕ
  count_fails zero address i fail_count = (fail_count, i)
  count_fails (suc rounds) address i fail_count = elim (probe i address) [
    | failed_probe ↦ (fail_count, i + 1)
    | alive ↦ (fail_count, i + 1)
    | dead ↦ count_fails rounds address (i + 1) (fail_count + 1)
  ]

  unfoldable pub check_address : ℕ → String → ℕ → Verdict × ℕ
  unfolding count_fails
  check_address max_fail_count address i = elim (probe i address) [
    | failed_probe ↦ (breaks, i + 1)
    | alive ↦ (goes_on, i + 1)
    | dead ↦
        let (fail_count, i1) = count_fails max_fail_count address (i + 1) 1 in
        (if leb max_fail_count fail_count then exits else goes_on, i1)
  ]

  -- One round over the addresses.
  unfoldable pub probe_round : ℕ → List String → ℕ → Verdict × ℕ
  unfolding check_address
  probe_round max_fail_count [] i = (goes_on, i)
  probe_round max_fail_count (a ∷ rest) i =
      let (verdict, i1) = check_address max_fail_count a i in
      elim verdict [
        | goes_on ↦ probe_round max_fail_count rest i1
        | breaks ↦ (breaks, i1)
        | exits ↦ (exits, i1)
      ]

  -- The pings numbered from i on, as many as the last argument says, found no one.
  abbrev pub all_dead : String → ℕ → ℕ → Bool
  all_dead address i zero = true
  all_dead address i (suc k) = elim (probe i address) [
    | dead ↦ all_dead address (i + 1) k
    | alive ↦ false
    | failed_probe ↦ false
  ]

module _ (c : BgpControl) where
  -- The peers are deleted before the exit.
  unfoldable pub on_verdict : List BgpPeer → Verdict → BgpControl.Conn c → BgpControl.Conn c
  unfolding delete_peers
  on_verdict peers exits conn = delete_peers c peers conn
  on_verdict peers _ conn = conn

-- The states that end the watch of the connection.
unfoldable pub is_lost_connection : String → Bool
is_lost_connection state = state == "Disconnected" || state == "Failed"

-- The events of the connection up to the one that ends the watch; false where the watch goes on.
unfoldable pub vpp_conn_status : List String → Bool
unfolding is_lost_connection
vpp_conn_status [] = false
vpp_conn_status (state ∷ states) =
    let rest = vpp_conn_status states in if is_lost_connection state then true else rest
