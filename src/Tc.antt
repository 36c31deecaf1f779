-- ===== src/Tc.antt =====
-- The traffic control part: netlink requests that make and delete a class, a queue and a filter for
-- a mark on both network devices.
-- kmod/qos_marktbl_tc.c, qmark_tc_calc_rtable to qmark_tc_del_rule.
pub mod Rates
pub mod Requests
pub mod Sent
pub mod Interface
pub mod Classes
use ip_qos.Base.{
  ℕ, zero, suc, ◌+◌, ◌*◌, ◌/◌, ◌%◌, ◌^◌, Bool, true, false, List, [], ◌∷◌, none, some,
  if◌then◌else◌, ◌&&◌, ltb, ◌==◌, bit_or,
}
use ip_qos.Base.Word.{u32_mod, add32}
use ip_qos.Bitmap.{shift_down}
use ip_qos.Netlink.{
  Host, HtbOpt, MessageType, NetDevice, Ratespec, RtnlReq, Traffic, close_nest, deltclass,
  deltfilter, fifo_limit, htb_opt, kind_fw, kind_htb, kind_pfifo, kind_sfq, nest, newqdisc,
  newtclass, newtfilter, qmark_tc_addattr, qmark_tc_rtnl_talk, rate_table, sizeof_req,
  tca_fw_classid, tca_fw_mask, tca_htb_ctab, tca_htb_parms, tca_htb_rtab, tca_kind, tca_options,
  word,
}
use ip_qos.Kernel.{Result, done, fault, division_by_zero, RuletblNode}

-- `while ((mtu >> cell_log) > 255) cell_log++;`
unfoldable pub find_cell_log : ℕ → ℕ → ℕ → ℕ
find_cell_log zero mtu cell_log = cell_log
find_cell_log (suc fuel) mtu cell_log =
    let later = find_cell_log fuel mtu (suc cell_log) in
    if ltb 255 (mtu / 2 ^ cell_log) then later else cell_log

-- The entries that are left, and `i`: `rtab[i] = (100 * sz * ticks) / (bps / 10)`, `mpu` is 0.
unfoldable pub fill_rtable : ℕ → ℕ → ℕ → ℕ → ℕ → List ℕ
fill_rtable zero i cell_log ticks divisor = []
fill_rtable (suc left) i cell_log ticks divisor =
    ((i + 1) * 2 ^ cell_log % u32_mod * 100 % u32_mod * ticks % u32_mod / divisor)
    ∷ fill_rtable left (suc i) cell_log ticks divisor

-- It is called with a cell_log of -1, which is found here. An mtu has 32 bits, so 32 rounds are
-- enough.
unfoldable pub qmark_tc_calc_rtable : Host → ℕ → ℕ → Result (Ratespec × List ℕ)
qmark_tc_calc_rtable host bps mtu =
    let mtu' = if mtu == 0 then 2047 else mtu in
    let cell_log = find_cell_log 32 mtu' 0 in
    if bps / 10 == 0
    then fault division_by_zero
    else done (
      record { rate = bps; cell_log = cell_log; cell_align = 0xffff; linklayer = 1 },
      fill_rtable 256 0 cell_log host.ticks_per_msec (bps / 10),
    )

-- `(rate * 1000) / 8`, with `least` for 0
unfoldable pub byte_rate : ℕ → ℕ → ℕ
byte_rate least rate = let r = rate * 1000 % u32_mod / 8 in if r == 0 then least else r

module _ (host : Host) where
  unfoldable pub tc_htb_opt_parse : ℕ → ℕ → ℕ → RtnlReq → Result RtnlReq
  tc_htb_opt_parse rate ceil mtu n = elim (qmark_tc_calc_rtable host (byte_rate 125 rate) mtu) [
    | fault e ↦ fault e
    | done (rspec, rtab) ↦ elim (qmark_tc_calc_rtable host (byte_rate 125_000_000 ceil) mtu) [
      | fault e ↦ fault e
      | done (cspec, ctab) ↦
          let buffer = 20 * host.ticks_per_msec % u32_mod in
          let opt : HtbOpt = record {
            rate = rspec;
            ceil = cspec;
            buffer = buffer;
            cbuffer = buffer;
          } in
          done (
            close_nest n (
              qmark_tc_addattr 4024 tca_htb_ctab (rate_table ctab) 1024 (
                qmark_tc_addattr 3024 tca_htb_rtab (rate_table rtab) 1024 (
                  qmark_tc_addattr 2024 tca_htb_parms (htb_opt opt) 44
                    (qmark_tc_addattr 1024 tca_options nest 0 n)))))
    ]
  ]

-- `(1<<16) | ...`: the class of a mark under a rule. TC_MAX_IP_CNT is 4096.
unfoldable pub class_minor : RuletblNode → ℕ → ℕ
class_minor rn mark_offset =
    if rn.devid == 0
    then add32 mark_offset 1
    else add32 (add32 rn.devid 1 * 4096 % u32_mod) mark_offset

unfoldable pub class_id : RuletblNode → ℕ → ℕ
class_id rn mark_offset = bit_or 0x1_0000 (class_minor rn mark_offset)

unfoldable pub parent_id : RuletblNode → ℕ
parent_id rn = if rn.devid == 0 then 0x1_0001 else bit_or 0x1_0000 (add32 rn.devid 1)

-- A request without attributes: nlmsg_len is NLMSG_LENGTH(sizeof(struct tcmsg)).
unfoldable pub request : MessageType → Bool → ℕ → ℕ → ℕ → RtnlReq
request cmd create ifindex handle parent = record {
  nlmsg_len = 36;
  nlmsg_type = cmd;
  create = create;
  ack = false;
  tcm_ifindex = ifindex;
  tcm_handle = handle;
  tcm_parent = parent;
  prio = 0;
  protocol = 0;
  attrs = [];
}

unfoldable pub qdisc_request : MessageType → Bool → RuletblNode → ℕ → NetDevice → RtnlReq
qdisc_request cmd create rn mark dev =
    let mark_offset = shift_down mark in
    let req = qmark_tc_addattr sizeof_req tca_kind kind_pfifo 6 (
      request cmd create dev.ifindex (class_minor rn mark_offset * 0x1_0000 % u32_mod)
        (class_id rn mark_offset)) in
    elim cmd [ newqdisc ↦ qmark_tc_addattr 1024 tca_options (fifo_limit 100) 4 req | _ ↦ req ]

-- The loop of the queue and of the filter.
unfoldable pub on_devices : (NetDevice → RtnlReq) → Traffic → Traffic
on_devices req t = elim t.lan_dev [
  | none ↦ t
  | some lan ↦
      let t' = qmark_tc_rtnl_talk (req lan) t in
      elim t.wan_dev [ none ↦ t' | some wan ↦ qmark_tc_rtnl_talk (req wan) t' ]
]

unfoldable pub tc_pfifo_qdisc_modify : MessageType → Bool → RuletblNode → ℕ → Traffic → Traffic
tc_pfifo_qdisc_modify cmd create rn mark = on_devices (qdisc_request cmd create rn mark)

unfoldable pub sfq_request : MessageType → Bool → RuletblNode → ℕ → NetDevice → RtnlReq
sfq_request cmd create rn mark dev =
    let mark_offset = shift_down mark in
    qmark_tc_addattr sizeof_req tca_kind kind_sfq 4 (
      request cmd create dev.ifindex (class_minor rn mark_offset * 0x1_0000 % u32_mod)
        (class_id rn mark_offset))

-- Nothing calls it.
unfoldable pub tc_sfq_qdisc_modify : MessageType → Bool → RuletblNode → ℕ → Traffic → Traffic
tc_sfq_qdisc_modify cmd create rn mark = on_devices (sfq_request cmd create rn mark)

-- `cmd == RTM_NEWTFILTER`
abbrev is_newtfilter : MessageType → Bool
is_newtfilter newtfilter = true
is_newtfilter _ = false

module _ (host : Host) where
  -- The round for one device, with the rates of that direction. A missing device ends the loop.
  unfoldable pub class_request :
      MessageType → Bool → RuletblNode → ℕ → ℕ → ℕ → NetDevice → Result RtnlReq
  class_request cmd create rn mark rate ceil dev =
      let req =
        qmark_tc_addattr sizeof_req tca_kind kind_htb 4
          (request cmd create dev.ifindex (class_id rn (shift_down mark)) (parent_id rn)) in
      elim cmd [ newtclass ↦ tc_htb_opt_parse host rate ceil dev.mtu req | _ ↦ done req ]

  -- PRIO_FILTER is 3; the mask is that of all marks.
  unfoldable pub filter_request : MessageType → Bool → RuletblNode → ℕ → NetDevice → RtnlReq
  filter_request cmd create rn mark dev =
      let base : RtnlReq = record (request cmd create dev.ifindex mark 0x1_0000) {
        prio = 3;
        protocol = if is_newtfilter cmd && create then host.eth_p_all else 0;
      } in
      let req = qmark_tc_addattr sizeof_req tca_kind kind_fw 3 base in
      close_nest req (
        qmark_tc_addattr 4096 tca_fw_classid (word (class_id rn (shift_down mark))) 4 (
          qmark_tc_addattr 16384 tca_fw_mask (word 0xff_f800) 4
            (qmark_tc_addattr 4096 tca_options nest 0 req)))

  unfoldable pub tc_htb_class_modify :
      MessageType → Bool → RuletblNode → ℕ → Traffic → Result Traffic
  tc_htb_class_modify cmd create rn mark t = elim t.lan_dev [
    | none ↦ done t
    | some lan ↦ elim (class_request cmd create rn mark rn.rate_min_mate rn.rate_mate lan) [
      | fault e ↦ fault e
      | done req ↦ elim t.wan_dev [
        | none ↦ done (qmark_tc_rtnl_talk req t)
        | some wan ↦ elim (class_request cmd create rn mark rn.rate_min rn.rate wan) [
          | fault e ↦ fault e
          | done req' ↦ done (qmark_tc_rtnl_talk req' (qmark_tc_rtnl_talk req t))
        ]
      ]
    ]
  ]

  unfoldable pub tc_fw_filter_modify : MessageType → Bool → RuletblNode → ℕ → Traffic → Traffic
  tc_fw_filter_modify cmd create rn mark = on_devices (filter_request cmd create rn mark)

  unfoldable pub qmark_tc_add_rule : RuletblNode → ℕ → Traffic → Result Traffic
  qmark_tc_add_rule rn mark t = elim (tc_htb_class_modify newtclass true rn mark t) [
    | fault e ↦ fault e
    | done t' ↦ done (
        tc_fw_filter_modify newtfilter true rn mark
          (tc_pfifo_qdisc_modify newqdisc true rn mark t'))
  ]

  unfoldable pub qmark_tc_del_rule : RuletblNode → ℕ → Traffic → Result Traffic
  qmark_tc_del_rule rn mark t =
      tc_htb_class_modify deltclass false rn mark (tc_fw_filter_modify deltfilter false rn mark t)
