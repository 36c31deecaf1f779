-- ===== src/Options.antt =====
-- The local variables of the command line tool, its options, and the texts that they read.
-- app/qmark.c, main, up to its loop and the formats in it.
use ip_qos.Base.{
  ℕ, ◌+◌, ◌*◌, ◌%◌, ◌^◌, Bool, true, false, not, List, [], ◌∷◌, ◌++◌, some, length, ltb,
}
use ip_qos.Base.Word.{u32_mod}
use ip_qos.Ioctl.{QmarkRule, QmarkHash, Reply, einval, success}
use ip_qos.Text.{Text, codes, Directive, number, hex, blank, literal, Value, num_at}

-- "ioctl ... failed" for an option, "0x%x" for a mark, and the usage.
pub data Printed : Type 0 where
  failed : ℕ → Printed
  mark_line : ℕ → Printed
  usage : Printed

-- The local variables of main: qr, qh, qm, qn, qs and ip, and what is printed so far.
pub record Locals : Type 0 where
  pub qr : QmarkRule
  pub qh : QmarkHash
  pub qm : ℕ
  pub lan_dev : Text
  pub wan_dev : Text
  pub max_ip_cnt : ℕ
  pub max_rule_cnt : ℕ
  pub ip0 : ℕ
  pub ip1 : ℕ
  pub ip2 : ℕ
  pub ip3 : ℕ
  pub out : List Printed

-- `qs` is not initialised.
abbrev pub start : ℕ → ℕ → Locals
start max_ip_cnt max_rule_cnt = record {
  qr = record {
    id = 0;
    mode = 0;
    devid = 0;
    rate = 0;
    rate_mate = 0;
    rate_min = 0;
    rate_min_mate = 0;
  };
  qh = record { ip = 0; id = 0; mark = 0 };
  qm = 0;
  lan_dev = [];
  wan_dev = [];
  max_ip_cnt = max_ip_cnt;
  max_rule_cnt = max_rule_cnt;
  ip0 = 0;
  ip1 = 0;
  ip2 = 0;
  ip3 = 0;
  out = [];
}

-- The letters that getopt_long is given, with a colon where a text follows; and the long names,
-- with `true` for required_argument.
abbrev pub optstring : Text
optstring = codes "a:d:lxA:D:C:LXgf:Fzr:n:s:htu"

abbrev pub long_options : List (Text × Bool × ℕ)
long_options =
    (codes "add_rule", true, b'a')
    ∷ (codes "del_rule", true, b'd')
    ∷ (codes "list_rule", false, b'l')
    ∷ (codes "flush_rule", false, b'x')
    ∷ (codes "add_hash", true, b'A')
    ∷ (codes "del_hash", true, b'D')
    ∷ (codes "check_hash", true, b'C')
    ∷ (codes "list_hash", false, b'L')
    ∷ (codes "flush_hash", false, b'X')
    ∷ (codes "alloc_mark", false, b'g')
    ∷ (codes "free_mark", true, b'f')
    ∷ (codes "flush_mark", false, b'F')
    ∷ (codes "dump", false, b'z')
    ∷ (codes "reset", true, b'r')
    ∷ (codes "netdev_set", true, b'n')
    ∷ (codes "spec_set", true, b's')
    ∷ (codes "help", false, b'h')
    ∷ []

-- "%d.%d.%d.%d" and "%d %d %d %d %d %d %d"
abbrev pub address_format : List Directive
address_format = number ∷ literal b'.' ∷ number ∷ literal b'.' ∷ number ∷ literal b'.' ∷ number ∷ []

abbrev pub rule_format : List Directive
rule_format =
    number ∷ blank ∷ number ∷ blank ∷ number ∷ blank ∷ number ∷ blank ∷ number ∷ blank ∷ number
    ∷ blank ∷ number ∷ []

-- " 0x%x %d" after the address.
abbrev pub mark_format : List Directive
mark_format = blank ∷ literal b'0' ∷ literal b'x' ∷ hex ∷ blank ∷ number ∷ []

-- `qh.ip += ip[i] << ((3 - i) << 3)`
abbrev pub add_octet : ℕ → ℕ → ℕ → ℕ
add_octet ip octet shift = (ip + octet * 2 ^ shift) % u32_mod

abbrev pub add_octets : ℕ → ℕ → ℕ → ℕ → ℕ → ℕ
add_octets ip a b c d = add_octet (add_octet (add_octet (add_octet ip a 24) b 16) c 8) d 0

abbrev pub with_rule : List Value → QmarkRule → QmarkRule
with_rule vs qr = record {
  id = num_at vs 0 qr.id;
  mode = num_at vs 1 qr.mode;
  devid = num_at vs 2 qr.devid;
  rate = num_at vs 3 qr.rate;
  rate_mate = num_at vs 4 qr.rate_mate;
  rate_min = num_at vs 5 qr.rate_min;
  rate_min_mate = num_at vs 6 qr.rate_min_mate;
}

-- The octets of an address are stored, and added up to the address that is there.
abbrev pub with_address : List Value → Locals → Locals
with_address vs l =
    let l' : Locals = record l {
      ip0 = num_at vs 0 l.ip0;
      ip1 = num_at vs 1 l.ip1;
      ip2 = num_at vs 2 l.ip2;
      ip3 = num_at vs 3 l.ip3;
    } in
    record l' { qh = record l.qh { ip = add_octets l.qh.ip l'.ip0 l'.ip1 l'.ip2 l'.ip3 } }

-- The mark that the device writes back, over the old one.
abbrev pub handed : Reply → ℕ → ℕ
handed (success (some mark)) old = mark
handed _ old = old

-- `if (ioctl(...) < 0) printf(...)`
abbrev pub report : ℕ → Reply → Locals → Locals
report opt einval l = record l { out = l.out ++ (failed opt ∷ []) }
report opt (success _) l = l

abbrev pub print_mark : ℕ → Locals → Locals
print_mark mark l = record l { out = l.out ++ (mark_line mark ∷ []) }

-- The two arrays have 16 bytes, of which one ends the text.
abbrev pub too_long : Text → Bool
too_long name = not (ltb (length name) 16)
