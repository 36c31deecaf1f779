-- ===== src/Tc/Classes.antt =====
-- No two marks have one class.
use ip_qos.Base.{ℕ, ◌+◌, ◌*◌, ◌≤◌, ◌<◌, ◌≡◌, sym, ◌∙◌, if◌then◌else◌, ◌==◌, arith}
use ip_qos.Base.Bits.{bit_or_high}
use ip_qos.Kernel.{RuletblNode}
use ip_qos.Tc.{class_minor, class_id}

module _ (rn : RuletblNode) (offset : ℕ) (low : 0 < offset) (high : offset ≤ 4096)
    (devid : rn.devid ≤ 13) where
  class_minor-lt : class_minor rn offset < 0x1_0000
  unfolding class_minor
  class_minor-lt = ground (arith, low, high, devid)

  class_id_run : class_id rn offset ≡ 0x1_0000 + class_minor rn offset
  unfolding class_id
  class_id_run = bit_or_high 16 (class_minor rn offset) (omega arith) class_minor-lt

unfoldable minor : ℕ → ℕ → ℕ
minor devid offset = if devid == 0 then offset + 1 else (devid + 1) * 4096 + offset

minor-injective :
    (e e' o o' : ℕ)
    → 0 < o
    → o ≤ 4096
    → 0 < o'
    → o' ≤ 4096
    → minor e o ≡ minor e' o'
    → (e ≡ e') × (o ≡ o')
unfolding minor
minor-injective e e' o o' low high low' high' same = (ground arith, ground arith)

class_minor_run :
    (rn : RuletblNode) (o : ℕ) → o ≤ 4096 → rn.devid ≤ 13 → class_minor rn o ≡ minor rn.devid o
unfolding class_minor minor
class_minor_run rn o high d = ground arith

class_minor-injective :
    (rn rn' : RuletblNode) (offset offset' : ℕ)
    → 0 < offset
    → offset ≤ 4096
    → 0 < offset'
    → offset' ≤ 4096
    → rn.devid ≤ 13
    → rn'.devid ≤ 13
    → class_minor rn offset ≡ class_minor rn' offset'
    → (rn.devid ≡ rn'.devid) × (offset ≡ offset')
class_minor-injective rn rn' offset offset' low high low' high' d d' same =
    minor-injective rn.devid rn'.devid offset offset' low high low' high'
      (sym (class_minor_run rn offset high d) ∙ same ∙ class_minor_run rn' offset' high' d')

-- For bit offsets from 1 to 4096 and device ids up to 13, two rules and marks with the same class
-- handle have the same device id and the same offset.
pub class_id-injective :
    (rn rn' : RuletblNode) (offset offset' : ℕ)
    → 0 < offset
    → offset ≤ 4096
    → 0 < offset'
    → offset' ≤ 4096
    → rn.devid ≤ 13
    → rn'.devid ≤ 13
    → class_id rn offset ≡ class_id rn' offset'
    → (rn.devid ≡ rn'.devid) × (offset ≡ offset')
class_id-injective rn rn' offset offset' low high low' high' d d' same =
    class_minor-injective rn rn' offset offset' low high low' high' d d' (
      omega (
        arith,
        sym (class_id_run rn offset low high d) ∙ same ∙ class_id_run rn' offset' low' high' d',
      ))
