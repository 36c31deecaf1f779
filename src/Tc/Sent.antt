-- ===== src/Tc/Sent.antt =====
-- What qmark_tc_add_rule and qmark_tc_del_rule send.
use ip_qos.Base.{ℕ, Bool, true, List, some}
use ip_qos.Netlink.{Host, NetDevice, Traffic, RtnlReq}
use ip_qos.Tc.Requests.{Convertible}

module _ (host : Host) where
  abbrev pub sent_as : RtnlReq → RtnlReq
  sent_as req = record req { ack = true }

  abbrev pub IsSafeRates : ℕ → ℕ → ℕ → ℕ → Type 0
  IsSafeRates rate rate_mate rate_min rate_min_mate =
      Convertible rate_min_mate rate_mate × Convertible rate_min rate

  -- Both devices are there.
  abbrev pub online : NetDevice → NetDevice → (ℕ → Bool) → List RtnlReq → Traffic
  online lan wan locked sent = record {
    lan_dev = some lan;
    wan_dev = some wan;
    rtnl_is_locked = locked;
    sent = sent;
  }
