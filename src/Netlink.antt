-- ===== src/Netlink.antt =====
-- Netlink requests, the devices they are for, and how they are filled and sent.
-- kmod/qos_marktbl_tc.h, and of kmod/qos_marktbl_tc.c qmark_tc_rtnl_talk and qmark_tc_addattr. Message
-- types, attribute types and flags are constructors in place of their numbers; what memcpy writes
-- is kept as a value. No caller reads the statuses of the two functions.
use ip_qos.Base.{
  ℕ, suc, ◌+◌, ◌-◌, ◌*◌, ◌/◌, Bool, true, List, [], ◌∷◌, ◌++◌, Option, length, get_or, set,
  if◌then◌else◌, ltb,
}

-- struct tc_ratespec, without `overhead` and `mpu`, which stay 0. `cell_align` is a bit pattern of
-- 16 bits.
pub record Ratespec : Type 0 where
  pub rate : ℕ
  pub cell_log : ℕ
  pub cell_align : ℕ
  pub linklayer : ℕ

-- struct tc_htb_opt
pub record HtbOpt : Type 0 where
  pub rate : Ratespec
  pub ceil : Ratespec
  pub buffer : ℕ
  pub cbuffer : ℕ

pub data Payload : Type 0 where
  nest : Payload
  kind_htb kind_pfifo kind_sfq kind_fw : Payload
  htb_opt : HtbOpt → Payload
  rate_table : List ℕ → Payload
  fifo_limit : ℕ → Payload
  word : ℕ → Payload

pub data AttrType : Type 0 where
  tca_kind tca_options tca_htb_parms tca_htb_rtab tca_htb_ctab tca_fw_mask tca_fw_classid : AttrType

pub record Attr : Type 0 where
  pub attr_type : AttrType
  pub rta_len : ℕ
  pub data_of : Payload

pub data MessageType : Type 0 where
  newtclass deltclass newqdisc newtfilter deltfilter : MessageType

-- struct rtnl_req: the header, the tcmsg and the attributes in `buf`. `create` stands for
-- NLM_F_EXCL|NLM_F_CREATE.
pub record RtnlReq : Type 0 where
  pub nlmsg_len : ℕ
  pub nlmsg_type : MessageType
  pub create : Bool
  pub ack : Bool
  pub tcm_ifindex : ℕ
  pub tcm_handle : ℕ
  pub tcm_parent : ℕ
  pub prio : ℕ
  pub protocol : ℕ
  pub attrs : List Attr

pub record NetDevice : Type 0 where
  pub ifindex : ℕ
  pub mtu : ℕ

-- What the kernel's macros are on a host: PSCHED_NS2TICKS(NSEC_PER_MSEC) and htons(ETH_P_ALL).
pub record Host : Type 0 where
  pub ticks_per_msec : ℕ
  pub eth_p_all : ℕ

-- dev_get_by_name finds the two devices or not; `rtnl_is_locked` answers the calls to come; `sent`
-- is what sock_sendmsg was called with, newest first.
pub record Traffic : Type 0 where
  pub lan_dev : Option NetDevice
  pub wan_dev : Option NetDevice
  pub rtnl_is_locked : ℕ → Bool
  pub sent : List RtnlReq

-- NLMSG_ALIGN and RTA_ALIGN
abbrev pub align4 : ℕ → ℕ
align4 n = (n + 3) / 4 * 4

-- RTA_LENGTH, with 4 bytes of struct rtattr
abbrev pub rta_length : ℕ → ℕ
rta_length alen = 4 + alen

-- sizeof(struct rtnl_req): 16 for nlmsghdr, 20 for tcmsg, TCA_BUF_MAX.
abbrev pub sizeof_req : ℕ
sizeof_req = 4132

unfoldable pub qmark_tc_rtnl_talk : RtnlReq → Traffic → Traffic
qmark_tc_rtnl_talk n t =
    let t' : Traffic = record t { rtnl_is_locked = λ i. t.rtnl_is_locked (suc i) } in
    if t.rtnl_is_locked 0 then t' else record t' { sent = record n { ack = true } ∷ t.sent }

unfoldable pub qmark_tc_addattr : ℕ → AttrType → Payload → ℕ → RtnlReq → RtnlReq
qmark_tc_addattr maxlen attr_type data_of alen n =
    let len = rta_length alen in
    if ltb maxlen (align4 n.nlmsg_len + align4 len) then n else record n {
      nlmsg_len = align4 n.nlmsg_len + align4 len;
      attrs = n.attrs ++ (record { attr_type = attr_type; rta_len = len; data_of = data_of } ∷ []);
    }

-- `tail->rta_len = (void *) NLMSG_TAIL(n) - (void *) tail`, where `tail` was taken in `before`.
unfoldable pub close_nest : RtnlReq → RtnlReq → RtnlReq
close_nest before n =
    let i = length before.attrs in
    record n {
      attrs =
          set n.attrs i
            (record (get_or n.attrs i
              (record { attr_type = tca_options; rta_len = 0; data_of = nest })) {
                rta_len = align4 n.nlmsg_len - align4 before.nlmsg_len;
              });
    }
