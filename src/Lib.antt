-- ===== src/Lib.antt =====
-- cloudgw: a gateway between a cloud network and a physical one. It learns floating ips from the
-- controllers of the cloud by BGP, routes them in a forwarder (VPP) through MPLS over UDP tunnels
-- to the hosts, announces aggregated prefixes to the physical network, and watches that network's
-- routers with BFD.
--
-- The parts and their files. Paths are those of the repository; a Go method becomes a function of
-- the same words that takes the state and returns the new one.
-- * Model (internal/model): the structs and their constructors. Model.Route is VPPIPRoute with
--   AddPath and DelPath; Model.Route.Paths sees its three parallel slices as one list of paths.
-- * Imdb (internal/repository/imdb): the storages. Imdb.Memdb is the interface of the table
--   library, a parameter with its documented behaviour as laws. Imdb.Table has what the five
--   storages repeat: a table of pointers and the objects behind them, so that a write through a
--   pointer is seen without an Insert. The other modules are the storages, one for each file.
-- * Bfd (pkg/bfd): Bfd.Packet is the validation of packet.go; Bfd.Session, Bfd.Receive and
--   Bfd.Lifecycle are session.go: the struct and the methods on intervals, RxPacket and TxPacket,
--   and NewSession, sessionLoop and DetectFailure. Bfd.Control is AddSession and processPackets of
--   control.go, and Bfd.Removal is DelSession: the slice, the array behind it, which the loop still
--   ranges over, and the sessions that both point to. Bfd.Coding is packets as bytes.
-- * Netutils, Gobgp, Vpp (pkg/netutils, internal/repository/gobgp/gobgp.go,
--   internal/repository/vpp/vpp.go): addresses, prefixes in the BGP server, and requests to the
--   forwarder, each over a record of the library's functions.
--   Netutils.Label is the label of a VRF. Gobgp.Server has the other requests to the BGP server
--   and Gobgp.Policy its export policy; Gobgpapi (pkg/gobgpapi) has the same requests through the
--   client of the server's API. Govpp has the messages of the forwarder's library. Vpp is the
--   requests for tunnels and routes, Vpp.Setup those that set interfaces, tables and labels up,
--   Vpp.Dumps and Vpp.RouteDumps the dumps of the forwarder's tables.
-- * Initialize (internal/repository/vpp/initialize): the start and the reset of the forwarder's
--   configuration, as sequences of those requests and dumps.
-- * Service (internal/service): Service.Tunnels is tunnel_route_add.go and tunnel_route_remove.go,
--   floating ips and their tunnels, over the storages, the forwarder and the BGP server together.
--   Service.Parse is the parsers of BGP updates, Service.Watch, Service.Updates and Service.Peers
--   are HandleBGPUpdate of handle_bgp_update.go: its head, its callbacks on paths, which call the
--   parsers and Service.Tunnels, and its callback on the states of peers, which starts the watch by
--   BFD of bfd_health_check.go.
-- * Config (internal/config/config.go) is the configuration. App (internal/app) is the start:
--   App.Storages fills the storages from the configuration (init_imdb.go), App.Bgp configures the
--   BGP server from the storages (init_gobgp.go), App.Forwarder resets the forwarder and sets it up
--   (init_vpp.go). App.Bgp.Launched puts the configuration, the storage and the BGP server together.
--   Monitor (internal/monitor) watches the main interface and the connection, Http
--   (internal/controller/http/v1) has the answers of the HTTP API, which read the storages.
-- * Prelude (shared tests, lists and outcomes) and Checks (concrete inputs and runs).
--
-- How it is modelled. An index out of range, a nil pointer, a failed cast and the second closing of
-- a channel are the outcome `panic`. The integers of BFD wrap at 2^32 where they are computed; an
-- `int` of the configuration is taken as not negative. The goroutines of a session are the steps of
-- `Bfd.Lifecycle.Step`, taken in any order, with the times and the packets chosen by the
-- environment; the random length of a pause is therefore left out. What a method tells the outside,
-- a callback, a packet, a closed connection, is a list of events in the session, the newest first.
-- Two kinds of definitions run on fuel. The loops of AddPath and DelPath make as many rounds as
-- the slice was long when the source's `range` read its length. The loops of the dumps read
-- messages until the forwarder answers a ping, and the loop over the peers of the API until the
-- stream ends, which they may never do: their fuel is a parameter, `unfinished` is a loop that
-- has not ended, and fuel above the number of messages is enough.
-- A map that is ranged over is the list of its entries in the order of one such loop.
--
-- Not modelled: sockets, the bits of a packet, which the packet library reads and writes, logging,
-- the export of metrics but for the count of active peers, Init and Run of app.go, which start
-- goroutines and register what to close, the shutdown after a lost BFD session, and a first
-- connection of a session that fails.
pub mod Prelude
pub mod Model
pub mod Imdb
pub mod Bfd
pub mod Netutils
pub mod Govpp
pub mod Vpp
pub mod Initialize
pub mod Config
pub mod App
pub mod Monitor
pub mod Http
pub mod Gobgp
pub mod Gobgpapi
pub mod Service
pub mod Checks
