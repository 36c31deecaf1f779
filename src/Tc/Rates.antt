-- ===== src/Tc/Rates.antt =====
-- The rate tables: which rates can be converted, and the cell size.
use ip_qos.Base.{
  ℕ, zero, suc, ◌+◌, ◌*◌, ◌/◌, ◌%◌, ◌^◌, ◌≤◌, ◌<◌, ◌≡◌, refl, ap, ◌∙◌, get_or, Bool-cases, inl, inr,
  false, List, length, if◌then◌else◌, ltb, ◌==◌, ==_iff, arith,
}
use native.Mathlib.Nat.{
  pow-suc, div-lt_iff_lt-mul, div-mul-le_self, lt-div-mul-add, mod-eq_of_lt, mul-le-mul,
}
use ip_qos.Base.Word.{u32_mod}
use ip_qos.Kernel.{done}
use ip_qos.Tc.{find_cell_log, fill_rtable, qmark_tc_calc_rtable, byte_rate}
use ip_qos.Netlink.{Ratespec, Host}

-- A rate in Kbit below 4294968 does not wrap, and gives 125 bytes per second at least.
pub byte_rate_bounds :
    (least rate : ℕ)
    → 125 ≤ least
    → rate < 4_294_968
    → (125 ≤ byte_rate least rate)
      × (byte_rate least rate ≡ (if rate == 0 then least else rate * 125))
unfolding byte_rate
byte_rate_bounds least rate h small = (ground arith, ground arith)

length-fill_rtable :
    (left i cell_log ticks divisor : ℕ) → length (fill_rtable left i cell_log ticks divisor) ≡ left
unfolding fill_rtable
length-fill_rtable zero i c t d = refl
length-fill_rtable (suc left) i c t d = omega (arith, length-fill_rtable left (suc i) c t d)

-- The cell of entry `j`, and what its time is computed from.
get_or-fill_rtable :
    (left i c ticks d j : ℕ)
    → j < left
    → get_or (fill_rtable left i c ticks d) j 0
      ≡ (i + j + 1) * 2 ^ c % u32_mod * 100 % u32_mod * ticks % u32_mod / d
unfolding fill_rtable
get_or-fill_rtable zero i c ticks d j h = absurd (omega arith)
get_or-fill_rtable (suc left) i c ticks d zero h =
    let same : i + 0 ≡ i = omega arith in rw same refl
get_or-fill_rtable (suc left) i c ticks d (suc j) h =
    let same : i + suc j ≡ suc i + j = omega arith in
    rw same (get_or-fill_rtable left (suc i) c ticks d j (omega arith))

pow_pos : (c : ℕ) → 0 < 2 ^ c
pow_pos zero = omega arith
pow_pos (suc c) = omega (arith, pow-suc 2 c, pow_pos c)

below : (mtu c : ℕ) → mtu < 2 ^ (c + 0) * 256 → mtu / 2 ^ c < 256
below mtu c h =
    let same : c + 0 ≡ c = omega arith in
    let small : mtu < 2 ^ c * 256 = rw same at h in (div-lt_iff_lt-mul (pow_pos c)).1 (omega arith)

-- From `cell_log` on, the loop finds the first shift that leaves a byte.
find_cell_log_from :
    (fuel mtu cell_log : ℕ)
    → mtu < 2 ^ (cell_log + fuel) * 256
    → (mtu / 2 ^ find_cell_log fuel mtu cell_log ≤ 255)
      × ((j : ℕ) → cell_log ≤ j → j < find_cell_log fuel mtu cell_log → 255 < mtu / 2 ^ j)
unfolding find_cell_log
find_cell_log_from zero mtu c h = (omega (arith, below mtu c h), λ j low high. absurd (omega arith))
find_cell_log_from (suc fuel) mtu c h = elim (Bool-cases (ltb 255 (mtu / 2 ^ c))) [
  | inl more ↦
      let same : c + suc fuel ≡ suc c + fuel = omega arith in
      let (small, least) = find_cell_log_from fuel mtu (suc c) (rw same at h) in
      rw (more, if◌then◌else◌)
        (
          small,
          λ j low high. elim (Bool-cases (c == j)) [
            | inl first ↦ rw (← (==_iff c j).0 first) (ground arith)
            | inr later ↦ least j (ground (arith, ==_iff c j)) high
          ],
        )
  | inr stop ↦ rw (stop, if◌then◌else◌) (ground arith, λ j low high. absurd (omega arith))
]

-- For a 32-bit mtu the loop for the cell size ends within 32 rounds, at the least shift that
-- leaves one byte.
pub find_cell_log_lem :
    (mtu : ℕ)
    → mtu < 2 ^ 32
    → (mtu / 2 ^ find_cell_log 32 mtu 0 ≤ 255)
      × ((j : ℕ) → j < find_cell_log 32 mtu 0 → 255 < mtu / 2 ^ j)
find_cell_log_lem mtu h =
    let (small, least) = find_cell_log_from 32 mtu 0 (omega arith) in
    (small, λ j high. least j (omega arith) high)

module _ (host : Host) (bps mtu : ℕ) where
  abbrev pub spec : Ratespec
  spec = record {
    rate = bps;
    cell_log = find_cell_log 32 (if mtu == 0 then 2047 else mtu) 0;
    cell_align = 0xffff;
    linklayer = 1;
  }

  abbrev pub table : List ℕ
  table = fill_rtable 256 0 spec.cell_log host.ticks_per_msec (bps / 10)

  pub calc_rtable_run : 10 ≤ bps → qmark_tc_calc_rtable host bps mtu ≡ done (spec, table)
  unfolding qmark_tc_calc_rtable
  calc_rtable_run h =
      let test : (bps / 10 == 0) ≡ false = ground arith in rw (test, if◌then◌else◌) refl

pow_small : (c : ℕ) → c ≤ 3 → 2 ^ c ≤ 8
pow_small zero h = omega arith
pow_small (suc zero) h = omega arith
pow_small (suc (suc zero)) h = omega arith
pow_small (suc (suc (suc zero))) h = omega arith
pow_small (suc (suc (suc (suc c)))) h = absurd (omega arith)

-- Nothing wraps for a cell of at most 2048 bytes and a tick of at least 47 ns.
exact :
    (size ticks : ℕ)
    → size ≤ 2048
    → ticks ≤ 20971
    → size % u32_mod * 100 % u32_mod * ticks % u32_mod ≡ size * 100 * ticks
exact size ticks small slow =
    let first : size % u32_mod ≡ size = omega arith in
    let second : size * 100 % u32_mod ≡ size * 100 = omega arith in
    let cells : size * 100 ≤ 204_800 = omega arith in
    let bound : size * 100 * ticks ≤ 204_800 * 20_971 = mul-le-mul cells slow in
    rw (first, second) (mod-eq_of_lt (omega (arith, bound)))

-- The table for a rate: cells of the least size of which 256 cover the mtu, and for each number of
-- cells the time that they take at `bps` bytes per second, in ticks, rounded down.
pub record IsRateTable (host : Host) (bps mtu : ℕ) (r : Ratespec) (rtab : List ℕ) : Type 0 where
  pub same_rate : r.rate ≡ bps
  pub aligned : r.cell_align ≡ 0xffff
  pub ethernet : r.linklayer ≡ 1
  pub covers : mtu / 2 ^ r.cell_log ≤ 255
  pub least : (j : ℕ) → j < r.cell_log → 255 < mtu / 2 ^ j
  pub entries : length rtab ≡ 256
  pub low :
      (j : ℕ)
      → j < 256
      → get_or rtab j 0 * (bps / 10) ≤ (j + 1) * 2 ^ r.cell_log * 100 * host.ticks_per_msec
  pub high :
      (j : ℕ)
      → j < 256
      → (j + 1) * 2 ^ r.cell_log * 100 * host.ticks_per_msec
        < get_or rtab j 0 * (bps / 10) + bps / 10

module _ (host : Host) (bps mtu : ℕ) (enough : 10 ≤ bps) (short : mtu ≤ 2047)
    (slow : host.ticks_per_msec ≤ 20971) where
  abbrev mtu' : ℕ
  mtu' = if mtu == 0 then 2047 else mtu

  abbrev c : ℕ
  c = find_cell_log 32 mtu' 0

  short' : mtu' ≤ 2047
  short' = ground arith

  cell : (mtu' / 2 ^ c ≤ 255) × ((j : ℕ) → j < c → 255 < mtu' / 2 ^ j)
  cell = find_cell_log_lem mtu' (omega (arith, short'))

  small_cell : c ≤ 3
  small_cell = elim (Bool-cases (ltb 3 c)) [
    | inl more ↦ absurd (omega (arith, short', cell.1 3 (ground arith)))
    | inr few ↦ ground arith
  ]

  entry :
      (j : ℕ)
      → j < 256
      → get_or (table host bps mtu) j 0 ≡ (j + 1) * 2 ^ c * 100 * host.ticks_per_msec / (bps / 10)
  entry j h =
      let cells : j + 1 ≤ 256 = omega arith in
      let size : (j + 1) * 2 ^ c ≤ 256 * 8 = mul-le-mul cells (pow_small c small_cell) in
      let first : 0 + j + 1 ≡ j + 1 = omega arith in
      let raw = get_or-fill_rtable 256 0 c host.ticks_per_msec (bps / 10) j h in
      (rw first at raw)
      ∙ ap (λ x. x / (bps / 10))
          (exact ((j + 1) * 2 ^ c) host.ticks_per_msec (omega (arith, size)) slow)

  pub qmark_tc_calc_rtable_lem :
      (r : Ratespec) × (rtab : List ℕ) × (qmark_tc_calc_rtable host bps mtu ≡ done (r, rtab))
      × IsRateTable host bps (if mtu == 0 then 2047 else mtu) r rtab
  qmark_tc_calc_rtable_lem = (
    spec host bps mtu,
    table host bps mtu,
    calc_rtable_run host bps mtu enough,
    record {
      same_rate = refl;
      aligned = refl;
      ethernet = refl;
      covers = cell.0;
      least = cell.1;
      entries = length-fill_rtable 256 0 c host.ticks_per_msec (bps / 10);
      low = λ j h. rw (entry j h) (div-mul-le_self _ (bps / 10));
      high = λ j h. rw (entry j h) (lt-div-mul-add (omega arith));
    },
  )
