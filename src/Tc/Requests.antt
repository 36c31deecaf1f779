-- ===== src/Tc/Requests.antt =====
-- What the requests hold, and the part as the mark table uses it.
use ip_qos.Base.{
  ℕ, ◌*◌, ◌%◌, ◌≤◌, ◌≡◌, refl, ◌<◌, Bool, true, List, [], ◌∷◌, if◌then◌else◌, ◌==◌, arith,
}
use ip_qos.Base.Word.{u32_mod}
use ip_qos.Bitmap.{shift_down}
use ip_qos.Kernel.{done, RuletblNode}
use ip_qos.Tc.{
  qmark_tc_calc_rtable, byte_rate, tc_htb_opt_parse, class_id, class_minor, parent_id, request,
  class_request, qdisc_request, filter_request,
}
use ip_qos.Netlink.{
  Host, NetDevice, RtnlReq, HtbOpt, MessageType, newtclass, newqdisc, newtfilter, kind_pfifo,
  fifo_limit, Ratespec, tca_kind, tca_options, tca_htb_parms, tca_htb_rtab, tca_htb_ctab,
  tca_fw_mask, tca_fw_classid, kind_fw, word, nest, kind_htb, htb_opt, rate_table, sizeof_req,
  qmark_tc_addattr, close_nest,
}
use ip_qos.Tc.Rates.{byte_rate_bounds, calc_rtable_run, IsRateTable, qmark_tc_calc_rtable_lem}

-- Both rates of a direction give a table.
abbrev pub Convertible : ℕ → ℕ → Type 0
Convertible rate ceil = (10 ≤ byte_rate 125 rate) × (10 ≤ byte_rate 125_000_000 ceil)

-- A rate in Kbit as bytes per second, with `least` for 0; and the mtu that cells are made for.
abbrev pub bytes : ℕ → ℕ → ℕ
bytes least rate = if rate == 0 then least else rate * 125

abbrev pub cell_mtu : NetDevice → ℕ
cell_mtu dev = if dev.mtu == 0 then 2047 else dev.mtu

module _ (host : Host) where
  -- The request with the options of a class.
  abbrev with_options : Ratespec → List ℕ → Ratespec → List ℕ → RtnlReq → RtnlReq
  with_options r rtab r' ctab n =
      let buffer = 20 * host.ticks_per_msec % u32_mod in
      let opt : HtbOpt = record { rate = r; ceil = r'; buffer = buffer; cbuffer = buffer } in
      close_nest n (
        qmark_tc_addattr 4024 tca_htb_ctab (rate_table ctab) 1024 (
          qmark_tc_addattr 3024 tca_htb_rtab (rate_table rtab) 1024 (
            qmark_tc_addattr 2024 tca_htb_parms (htb_opt opt) 44
              (qmark_tc_addattr 1024 tca_options nest 0 n))))

  tc_htb_opt_parse_run :
      (rate ceil mtu : ℕ) (n : RtnlReq) (r r' : Ratespec) (rtab ctab : List ℕ)
      → qmark_tc_calc_rtable host (byte_rate 125 rate) mtu ≡ done (r, rtab)
      → qmark_tc_calc_rtable host (byte_rate 125_000_000 ceil) mtu ≡ done (r', ctab)
      → tc_htb_opt_parse host rate ceil mtu n ≡ done (with_options r rtab r' ctab n)
  unfolding tc_htb_opt_parse
  tc_htb_opt_parse_run rate ceil mtu n r r' rtab ctab run run' =
      rw (run, run', tc_htb_opt_parse) refl

  module _ (rn : RuletblNode) (mark : ℕ) where
    -- The request without its options.
    abbrev bare : NetDevice → RtnlReq
    bare dev =
        qmark_tc_addattr sizeof_req tca_kind kind_htb 4
          (request newtclass true dev.ifindex (class_id rn (shift_down mark)) (parent_id rn))

    pub class_request_new :
        (rate ceil : ℕ) (dev : NetDevice)
        → Convertible rate ceil
        → (req : RtnlReq) × (class_request host newtclass true rn mark rate ceil dev ≡ done req)
    unfolding class_request
    class_request_new rate ceil dev (low, high) = (
      _,
      tc_htb_opt_parse_run rate ceil dev.mtu (bare dev) _ _ _ _
          (calc_rtable_run host (byte_rate 125 rate) dev.mtu low)
          (calc_rtable_run host (byte_rate 125_000_000 ceil) dev.mtu high),
    )

    -- The request of a new class for a rate and a ceiling in Kbit, with all that it holds; 0 is
    -- the least rate and the highest ceiling.
    pub record IsClassOf (rate ceil : ℕ) (dev : NetDevice) (req : RtnlReq) : Type 0 where
      pub is_new : (req.nlmsg_type ≡ newtclass) × (req.create ≡ true)
      pub fits : req.nlmsg_len ≤ sizeof_req
      pub device : req.tcm_ifindex ≡ dev.ifindex
      pub handle : req.tcm_handle ≡ class_id rn (shift_down mark)
      pub parent : req.tcm_parent ≡ parent_id rn
      pub rate_spec : Ratespec
      pub rtab : List ℕ
      pub rates : IsRateTable host (bytes 125 rate) (cell_mtu dev) rate_spec rtab
      pub ceil_spec : Ratespec
      pub ctab : List ℕ
      pub ceils : IsRateTable host (bytes 125_000_000 ceil) (cell_mtu dev) ceil_spec ctab
      pub holds :
          req.attrs
          ≡ record { attr_type = tca_kind; rta_len = 8; data_of = kind_htb }
            ∷ record { attr_type = tca_options; rta_len = 2108; data_of = nest }
            ∷ record {
              attr_type = tca_htb_parms;
              rta_len = 48;
              data_of = htb_opt (record {
                rate = rate_spec;
                ceil = ceil_spec;
                buffer = 20 * host.ticks_per_msec % u32_mod;
                cbuffer = 20 * host.ticks_per_msec % u32_mod;
              });
            }
            ∷ record { attr_type = tca_htb_rtab; rta_len = 1028; data_of = rate_table rtab }
            ∷ record { attr_type = tca_htb_ctab; rta_len = 1028; data_of = rate_table ctab }
            ∷ []

    pub class_request-IsClassOf :
        (rate ceil : ℕ) (dev : NetDevice)
        → rate < 4_294_968
        → ceil < 4_294_968
        → dev.mtu ≤ 2047
        → host.ticks_per_msec ≤ 20971
        → (req : RtnlReq) × (class_request host newtclass true rn mark rate ceil dev ≡ done req)
          × IsClassOf rate ceil dev req
    unfolding class_request request qmark_tc_addattr close_nest
    class_request-IsClassOf rate ceil dev small small' short slow =
        let (low, same) = byte_rate_bounds 125 rate (omega arith) small in
        let (low', same') = byte_rate_bounds 125_000_000 ceil (omega arith) small' in
        let (r, rtab, run, t) =
          qmark_tc_calc_rtable_lem host (byte_rate 125 rate) dev.mtu (omega (arith, low)) short
            slow in
        let (r', ctab, run', t') =
          qmark_tc_calc_rtable_lem host (byte_rate 125_000_000 ceil) dev.mtu (omega (arith, low'))
            short slow in
        (
          with_options r rtab r' ctab (bare dev),
          tc_htb_opt_parse_run rate ceil dev.mtu (bare dev) r r' rtab ctab run run',
          record {
            is_new = (refl, refl);
            fits = omega arith;
            device = refl;
            handle = refl;
            parent = refl;
            rate_spec = r;
            rtab = rtab;
            rates = rw same at t;
            ceil_spec = r';
            ctab = ctab;
            ceils = rw same' at t';
            holds = refl;
          },
        )

  -- The queue of a mark stands under its class.
  module _ (rn : RuletblNode) (mark : ℕ) (dev : NetDevice) where
    pub record IsQueueOf (req : RtnlReq) : Type 0 where
      pub is_new : (req.nlmsg_type ≡ newqdisc) × (req.create ≡ true)
      pub fits : req.nlmsg_len ≤ sizeof_req
      pub device : req.tcm_ifindex ≡ dev.ifindex
      pub handle : req.tcm_handle ≡ class_minor rn (shift_down mark) * 0x1_0000 % u32_mod
      pub parent : req.tcm_parent ≡ class_id rn (shift_down mark)
      pub holds :
          req.attrs
          ≡ record { attr_type = tca_kind; rta_len = 10; data_of = kind_pfifo }
            ∷ record { attr_type = tca_options; rta_len = 8; data_of = fifo_limit 100 }
            ∷ []

    pub qdisc_request-IsQueueOf : IsQueueOf (qdisc_request newqdisc true rn mark dev)
    unfolding qdisc_request request qmark_tc_addattr
    qdisc_request-IsQueueOf = record {
      is_new = (refl, refl);
      fits = omega arith;
      device = refl;
      handle = refl;
      parent = refl;
      holds = refl;
    }

    -- The filter request of a mark, new or deleted, fits its buffer, has the mark as its handle,
    -- and holds the mask of all marks and the class of the mark under one nested attribute of the
    -- right length.
    pub filter_request_lem :
        (cmd : MessageType) (create : Bool)
        → ((filter_request host cmd create rn mark dev).nlmsg_len ≤ sizeof_req)
          × ((filter_request host cmd create rn mark dev).tcm_ifindex ≡ dev.ifindex)
          × ((filter_request host cmd create rn mark dev).tcm_handle ≡ mark)
          × ((filter_request host cmd create rn mark dev).attrs
              ≡ record { attr_type = tca_kind; rta_len = 7; data_of = kind_fw }
                ∷ record { attr_type = tca_options; rta_len = 20; data_of = nest }
                ∷ record { attr_type = tca_fw_mask; rta_len = 8; data_of = word 0xff_f800 }
                ∷ record {
                  attr_type = tca_fw_classid;
                  rta_len = 8;
                  data_of = word (class_id rn (shift_down mark));
                }
                ∷ [])
    unfolding filter_request request qmark_tc_addattr close_nest
    filter_request_lem cmd create = (omega arith, refl, refl, refl)

    -- The request of a new filter, which sends the packets of that mark to its class.
    pub record IsFilterOf (req : RtnlReq) : Type 0 where
      pub is_new : (req.nlmsg_type ≡ newtfilter) × (req.create ≡ true)
      pub fits : req.nlmsg_len ≤ sizeof_req
      pub device : req.tcm_ifindex ≡ dev.ifindex
      pub handle : req.tcm_handle ≡ mark
      pub parent : req.tcm_parent ≡ 0x1_0000
      pub order : (req.prio ≡ 3) × (req.protocol ≡ host.eth_p_all)
      pub holds :
          req.attrs
          ≡ record { attr_type = tca_kind; rta_len = 7; data_of = kind_fw }
            ∷ record { attr_type = tca_options; rta_len = 20; data_of = nest }
            ∷ record { attr_type = tca_fw_mask; rta_len = 8; data_of = word 0xff_f800 }
            ∷ record {
              attr_type = tca_fw_classid;
              rta_len = 8;
              data_of = word (class_id rn (shift_down mark));
            }
            ∷ []

    pub filter_request-IsFilterOf : IsFilterOf (filter_request host newtfilter true rn mark dev)
    unfolding filter_request request qmark_tc_addattr close_nest
    filter_request-IsFilterOf = record {
      is_new = (refl, refl);
      fits = omega arith;
      device = refl;
      handle = refl;
      parent = refl;
      order = (refl, refl);
      holds = refl;
    }
