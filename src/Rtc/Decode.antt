-- ===== src/Rtc/Decode.antt =====
-- rtc.cpp: the registers of the clock are read back as the time they stand for.
use singularity.Common.{
  ℕ, ◌+◌, ◌*◌, ◌/◌, ◌%◌, ◌≤◌, ◌<◌, ◌≡◌, true, false, some, arith, bit_and, ◌==◌, leb, if◌then◌else◌,
  List, [], ◌∷◌, Bool-cases, inl, inr, All, ◌++◌,
}
use singularity.Common.Bits.{bit_and_step, bit_and-zero}
use singularity.Rtc.{
  RtcTime, Registers, bcd_to_bin, is_binary, is_24hr, decode_number, decode_hour, decode, stable,
  same_registers, cmos_get_time_raw,
}

-- The binary coded decimal of a number below 100.
abbrev pub bin_to_bcd : ℕ → ℕ
bin_to_bcd n = n / 10 * 16 + n % 10

-- What the clock holds for a number and an hour, as its status register says.
abbrev pub encode_number : ℕ → ℕ → ℕ
encode_number status_b n = if is_binary status_b then n else bin_to_bcd n

abbrev pub hour_12 : ℕ → ℕ
hour_12 h = if h % 12 == 0 then 12 else h % 12

abbrev pub encode_hour : ℕ → ℕ → ℕ
encode_hour status_b h =
    if is_24hr status_b
    then encode_number status_b h
    else encode_number status_b (hour_12 h) + (if leb 12 h then 128 else 0)

abbrev pub encode : ℕ → RtcTime → Registers
encode status_b t = record {
  sec = encode_number status_b t.second;
  min = encode_number status_b t.minute;
  hr = encode_hour status_b t.hour;
  day = encode_number status_b t.day;
  mon = encode_number status_b t.month;
  yr = encode_number status_b (t.year % 100);
}

-- A time that the clock can show.
pub record IsTime (t : RtcTime) : Type 0 where
  pub seconds : t.second < 60
  pub minutes : t.minute < 60
  pub hours : t.hour < 24
  pub days : (1 ≤ t.day) × (t.day ≤ 31)
  pub months : (1 ≤ t.month) × (t.month ≤ 12)
  pub years : (1970 ≤ t.year) × (t.year < 2070)

bit_and-mod_16 : (x : ℕ) → bit_and x 15 ≡ x % 16
bit_and-mod_16 x = omega (
  arith,
  bit_and_step x 15,
  bit_and_step (x / 2) 7,
  bit_and_step (x / 2 / 2) 3,
  bit_and_step (x / 2 / 2 / 2) 1,
  bit_and-zero (x / 2 / 2 / 2 / 2),
)

-- The mark of an afternoon, and the hour under it.
bit_and-pm : (x y : ℕ) → x < 128 → y ≤ 1 → bit_and (x + y * 128) 128 ≡ y * 128
bit_and-pm x y h few =
    let z : ℕ = x + y * 128 in
    let z4 : ℕ = z / 2 / 2 / 2 / 2 in
    let low : bit_and z 128 ≡ bit_and z4 8 * 16 = omega (
      arith,
      bit_and_step z 128,
      bit_and_step (z / 2) 64,
      bit_and_step (z / 2 / 2) 32,
      bit_and_step (z / 2 / 2 / 2) 16,
    ) in
    let high : bit_and z4 8 ≡ y * 8 = omega (
      arith,
      bit_and_step z4 8,
      bit_and_step (z4 / 2) 4,
      bit_and_step (z4 / 2 / 2) 2,
      bit_and_step (z4 / 2 / 2 / 2) 1,
      bit_and-zero (z4 / 2 / 2 / 2 / 2),
    ) in
    omega (arith, low, high)

bit_and-hour : (x y : ℕ) → x < 128 → y ≤ 1 → bit_and (x + y * 128) 127 ≡ x
bit_and-hour x y h few =
    let z : ℕ = x + y * 128 in
    let z4 : ℕ = z / 2 / 2 / 2 / 2 in
    let low : bit_and z 127 ≡ bit_and z4 7 * 16 + z % 16 = omega (
      arith,
      bit_and_step z 127,
      bit_and_step (z / 2) 63,
      bit_and_step (z / 2 / 2) 31,
      bit_and_step (z / 2 / 2 / 2) 15,
    ) in
    let high : bit_and z4 7 ≡ z4 % 8 = omega (
      arith,
      bit_and_step z4 7,
      bit_and_step (z4 / 2) 3,
      bit_and_step (z4 / 2 / 2) 1,
      bit_and-zero (z4 / 2 / 2 / 2),
    ) in
    omega (arith, low, high)

bcd_to_bin-bin_to_bcd : (n : ℕ) → n < 100 → bcd_to_bin (bin_to_bcd n) ≡ n
unfolding bcd_to_bin
bcd_to_bin-bin_to_bcd n h =
    omega (arith, bit_and-mod_16 (bin_to_bcd n), bit_and-mod_16 (bin_to_bcd n / 16))

decode_number-encode_number :
    (status_b n : ℕ) → n < 100 → decode_number status_b (encode_number status_b n) ≡ n
unfolding decode_number
decode_number-encode_number status_b n h = ground (arith, bcd_to_bin-bin_to_bcd n)

decode_hour-encode_hour :
    (status_b h : ℕ) → h < 24 → decode_hour status_b (encode_hour status_b h) ≡ h
unfolding decode_hour
decode_hour-encode_hour status_b h few = elim (Bool-cases (is_24hr status_b)) [
  | inl all_day ↦ ground (arith, all_day, decode_number-encode_number status_b h)
  | inr halves ↦
      let y : ℕ = if leb 12 h then 1 else 0 in
      let x = encode_number status_b (hour_12 h) in
      let small : x < 128 = ground arith in
      ground (
        arith,
        halves,
        small,
        bit_and-pm x y,
        bit_and-hour x y,
        decode_number-encode_number status_b (hour_12 h),
      )
]

decode-encode : (status_b : ℕ) (t : RtcTime) → IsTime t → decode status_b (encode status_b t) ≡ t
unfolding decode
decode-encode status_b t good =
    let (d1, d31) = good.days in
    let (m1, m12) = good.months in
    let (y70, y169) = good.years in
    let sec = decode_number-encode_number status_b t.second (omega (arith, good.seconds)) in
    let min = decode_number-encode_number status_b t.minute (omega (arith, good.minutes)) in
    let hour = decode_hour-encode_hour status_b t.hour good.hours in
    let day = decode_number-encode_number status_b t.day (omega (arith, d31)) in
    let mon = decode_number-encode_number status_b t.month (omega (arith, m12)) in
    let yr = decode_number-encode_number status_b (t.year % 100) (omega arith) in
    ground (arith, sec, min, hour, day, mon, yr, d1, d31, m1, m12, y70, y169)

same_registers_self : (r : Registers) → same_registers r r ≡ true
unfolding same_registers
same_registers_self r = ground arith

-- The two passes of a round that was cut by a change of the time.
abbrev pub IsTorn : Registers × Registers → Type 0
IsTorn (a, b) = same_registers a b ≡ false

-- However many rounds read registers that differ between the two passes, the first round that reads what a
-- clock holds for a time, in any of the formats of its status register, gives that time.
pub cmos_get_time_raw-encode :
    (status_b : ℕ) (t : RtcTime) (cut rest : List (Registers × Registers))
    → IsTime t
    → All IsTorn cut
    → cmos_get_time_raw (cut ++ (encode status_b t, encode status_b t) ∷ rest) status_b ≡ some t
unfolding cmos_get_time_raw stable
cmos_get_time_raw-encode status_b t [] rest good none_cut =
    ground (arith, same_registers_self (encode status_b t), decode-encode status_b t good)
cmos_get_time_raw-encode status_b t ((a, b) ∷ cut) rest good (torn, others) =
    ground (arith, torn, cmos_get_time_raw-encode status_b t cut rest good others)
