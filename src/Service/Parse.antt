-- ===== src/Service/Parse.antt =====
-- The parsers of BGP updates (ParseBGPUpdate, ParseVPNv4UpdateFromTF and
-- ParseVPNv4UpdateFromPHYNET of internal/service). The libraries that print messages as JSON and
-- that read values in JSON are a parameter.
pub mod Origin
use cloudgw.Imdb.BgpPeers.{TypeMap, lookup_type}
use cloudgw.Imdb.Memdb.{Error, Result, library, value, failed}
use cloudgw.Model.Nlri.{BgpNlriAttrs, new_bgp_nlri_attrs, zero_nlri_attrs}
use cloudgw.Model.Peer.{tf, phynet}
use cloudgw.Model.Vrf.{undefined_label}
use cloudgw.Prelude.{
  Bool, List, Option, Outcome, String, [], false, if◌then◌else◌, index, length, ltb, none, ok, some,
  true, ℕ, ℤ, ◌&&◌, ◌==◌, ◌>>=◌, ◌∷◌, is_int, to_u32, nat_Eq, string_Eq, string_append,
}

pub record JsonApi : Type 1 where
  -- anypb.Any, the bytes of a document, and a value in it
  pub Any : Type 0
  pub Bytes : Type 0
  pub Value : Type 0
  -- protojson.MarshalOptions.Marshal
  pub marshal : Any → Result Bytes
  -- gjson.Get on a document, Result.Get, and gjson.Parse
  pub get_path : Bytes → String → Value
  pub get_field : Value → String → Value
  pub parse : String → Value
  -- Result.String, Result.Int, Result.Array and Result.Exists
  pub show_value : Value → String
  pub int_of : Value → ℤ
  pub items : Value → List Value
  pub is_there : Value → Bool
  -- strconv.Atoi
  pub atoi : String → Result ℤ

-- Path of bgpapi, the fields that are read.
pub record BgpPath (j : JsonApi) : Type 0 where
  pub neighbor_ip : String
  pub nlri : JsonApi.Any j
  pub pattrs : List (JsonApi.Any j)
  pub source_asn : ℕ
  pub is_withdraw : Bool

-- The four results of a parser.
pub record Parsed : Type 0 where
  pub from_tf : Bool
  pub from_pn : Bool
  pub attrs : BgpNlriAttrs
  pub err : Option Error

-- The map from ids of VRFs to next hops, as its entries in the order of one `range` over it.
abbrev pub NextHopMap : Type 0
NextHopMap = List (ℕ × String)

unfoldable pub has_vrf : ℕ → NextHopMap → Bool
has_vrf v [] = false
has_vrf v ((u, nh) ∷ rest) = let r = has_vrf v rest in if u == v then true else r

-- The first entry with the next hop; 0 where there is none.
unfoldable pub vrf_of_next_hop : String → NextHopMap → ℕ
vrf_of_next_hop ip [] = 0
vrf_of_next_hop ip ((v, nh) ∷ rest) = let r = vrf_of_next_hop ip rest in if ip == nh then v else r

abbrev pub nothing_parsed : Option Error → Parsed
nothing_parsed e = record { from_tf = false; from_pn = false; attrs = zero_nlri_attrs; err = e }

abbrev pub wrong_length : Error
wrong_length = library "wrong bgp update nlri pattrs length"

module _ (j : JsonApi) where
  open j use {
    Any, Bytes, Value, marshal, get_path, get_field, parse, show_value, int_of, items, is_there,
    atoi,
  }

  -- The length of the prefix, which may be missing for a default route.
  abbrev pub prefix_len_of : Bytes → Value
  prefix_len_of nlri =
      if show_value (get_path nlri "prefix_len") == ""
      then parse "0"
      else get_path nlri "prefix_len"

  abbrev pub prefix_of : Bytes → String
  prefix_of nlri =
      string_append (show_value (get_path nlri "prefix"))
        (string_append "/" (show_value (prefix_len_of nlri)))

  -- The attributes for a route target that matched.
  abbrev pub tf_attrs : Bytes → ℤ → BgpNlriAttrs
  tf_attrs nlri local_admin =
      new_bgp_nlri_attrs (prefix_of nlri) (show_value (get_path nlri "rd.admin"))
        (to_u32 local_admin) none [] (to_u32 (int_of (get_path nlri "labels.0")) ∷ [])

  -- The loop over the communities, which returns at the first match or error.
  unfoldable pub scan_communities : Bytes → NextHopMap → ℕ → ℕ → List Value → Parsed
  unfolding has_vrf
  scan_communities nlri vrfs tf_asn pattrs_len [] = nothing_parsed none
  scan_communities nlri vrfs tf_asn pattrs_len (c ∷ cs) =
      let rest = scan_communities nlri vrfs tf_asn pattrs_len cs in
      if is_there (get_field c "asn")
      then elim (atoi (show_value (get_field c "asn"))) [
        | failed e ↦ nothing_parsed (some e)
        | value asn ↦ elim (atoi (show_value (get_field c "local_admin"))) [
          | failed e ↦ nothing_parsed (some e)
          | value local_admin ↦
              if is_int asn tf_asn && has_vrf (to_u32 local_admin) vrfs
              then if ltb pattrs_len 5 then nothing_parsed (some wrong_length) else record {
                from_tf = true;
                from_pn = false;
                attrs = tf_attrs nlri local_admin;
                err = none;
              }
              else rest
        ]
      ]
      else rest

  unfoldable pub parse_vpnv4_update_from_tf : Bytes → NextHopMap → ℕ → ℕ → Bytes → Parsed
  unfolding scan_communities
  parse_vpnv4_update_from_tf nlri vrfs tf_asn pattrs_len communities =
      if ltb pattrs_len 4
      then nothing_parsed (some wrong_length)
      else scan_communities nlri vrfs tf_asn pattrs_len (items (get_path communities "communities"))

  unfoldable pub parse_vpnv4_update_from_phynet : Bytes → NextHopMap → ℕ → ℕ → String → Parsed
  unfolding vrf_of_next_hop new_bgp_nlri_attrs
  parse_vpnv4_update_from_phynet nlri vrfs cloudgw_asn source_asn neighbor_ip = record {
    from_tf = false;
    from_pn = true;
    attrs =
        if source_asn == cloudgw_asn
        then zero_nlri_attrs
        else new_bgp_nlri_attrs (prefix_of nlri) neighbor_ip (vrf_of_next_hop neighbor_ip vrfs) none
            [] (undefined_label ∷ []);
    err = none;
  }

  -- The case of a controller: Pattrs[3] is indexed and printed before its length is looked at.
  unfoldable pub parse_from_tf : BgpPath j → NextHopMap → ℕ → Bytes → Outcome Parsed
  unfolding parse_vpnv4_update_from_tf
  parse_from_tf path vrfs tf_asn nlri = do
    attr ← index path.pattrs 3
    ok (elim (marshal attr) [
      | failed e ↦ nothing_parsed (some e)
      | value communities ↦
          parse_vpnv4_update_from_tf nlri vrfs tf_asn (length path.pattrs) communities
    ])

  unfoldable pub parse_bgp_update : BgpPath j → NextHopMap → TypeMap → ℕ → ℕ → Outcome Parsed
  unfolding parse_from_tf parse_vpnv4_update_from_phynet lookup_type
  parse_bgp_update path vrfs types tf_asn cloudgw_asn = elim (lookup_type path.neighbor_ip types) [
    | none ↦ ok (nothing_parsed none)
    | some peer_type ↦ elim (marshal path.nlri) [
      | failed e ↦ ok (nothing_parsed (some e))
      | value nlri ↦
          if peer_type == tf
          then parse_from_tf path vrfs tf_asn nlri
          else if peer_type == phynet
          then ok (
              parse_vpnv4_update_from_phynet nlri vrfs cloudgw_asn path.source_asn path.neighbor_ip)
          else ok (nothing_parsed none)
    ]
  ]
