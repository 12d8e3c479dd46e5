-- ===== src/Rtc.antt =====
-- archs/cpu/x86_64/drivers/rtc/rtc.cpp and rtc.hpp: the clock. What the hardware and the firmware
-- answer is an argument. `cmos_wait_for_stable` only spends time, since its result is not used.
pub mod Decode
pub mod Zone
mod Tests
use singularity.Common.{
  ℕ, zero, suc, ◌+◌, ◌-◌, ◌*◌, ◌/◌, ◌%◌, ◌^◌, Bool, true, false, not, ◌&&◌, ◌||◌, Option, none,
  some, bit_and, ◌==◌, ltb, leb, if◌then◌else◌, List, [], ◌∷◌, ◌++◌,
}

-- `int` values.
pub data ℤ : Type 0 where
  pos : ℕ → ℤ
  negsuc : ℕ → ℤ

pub record RtcTime : Type 0 where
  pub second : ℕ
  pub minute : ℕ
  pub hour : ℕ
  pub day : ℕ
  pub month : ℕ
  pub year : ℕ

-- The registers of the clock that `cmos_get_time_raw` reads in one pass.
pub record Registers : Type 0 where
  pub sec : ℕ
  pub min : ℕ
  pub hr : ℕ
  pub day : ℕ
  pub mon : ℕ
  pub yr : ℕ

abbrev pub to_u8 : ℕ → ℕ
to_u8 x = x % 2 ^ 8

unfoldable pub bcd_to_bin : ℕ → ℕ
bcd_to_bin bcd = to_u8 (bit_and (bcd / 16) 15 * 10 + bit_and bcd 15)

unfoldable pub same_registers : Registers → Registers → Bool
same_registers a b =
    a.sec == b.sec
    && (a.min == b.min && (a.hr == b.hr && (a.day == b.day && (a.mon == b.mon && a.yr == b.yr))))

-- The loop that reads the registers twice until both passes agree, on the passes that the hardware
-- answers; `none` when it has not ended with the last of them.
unfoldable pub stable : List (Registers × Registers) → Option Registers
stable [] = none
stable ((a, b) ∷ passes) = if same_registers a b then some b else stable passes

abbrev pub is_binary : ℕ → Bool
is_binary status_b = not (bit_and status_b 4 == 0)

abbrev pub is_24hr : ℕ → Bool
is_24hr status_b = not (bit_and status_b 2 == 0)

-- A number and an hour as the status register says.
unfoldable pub decode_number : ℕ → ℕ → ℕ
decode_number status_b n = if is_binary status_b then n else bcd_to_bin n

unfoldable pub decode_hour : ℕ → ℕ → ℕ
decode_hour status_b hr =
    let pm = not (bit_and hr 128 == 0) in
    let h = decode_number status_b (bit_and hr 127) in
    if is_24hr status_b
    then decode_number status_b hr
    else if pm && not (h == 12)
    then to_u8 (h + 12)
    else if not pm && h == 12
    then 0
    else h

-- `cmos_get_time_raw` from the registers on.
unfoldable pub decode : ℕ → Registers → RtcTime
decode status_b r =
    let yr = decode_number status_b r.yr in
    let day = decode_number status_b r.day in
    let mon = decode_number status_b r.mon in
    record {
      second = decode_number status_b r.sec;
      minute = decode_number status_b r.min;
      hour = decode_hour status_b r.hr;
      day = if leb 1 day && leb day 31 then day else 1;
      month = if leb 1 mon && leb mon 12 then mon else 1;
      year = if leb 70 yr then 1900 + yr else 2000 + yr;
    }

unfoldable pub cmos_get_time_raw : List (Registers × Registers) → ℕ → Option RtcTime
cmos_get_time_raw passes status_b = elim (stable passes) [
  | none ↦ none
  | some r ↦ some (decode status_b r)
]

-- The hour in a time zone, and the end of `getTime`.
unfoldable pub zone_hour : ℤ → ℕ → ℕ
zone_hour (pos tz) hour =
    if tz == 0 || ltb 14 tz
    then hour
    else if leb 24 (hour + tz)
    then to_u8 (hour + tz - 24)
    else to_u8 (hour + tz)
zone_hour (negsuc n) hour =
    let west = n + 1 in
    if ltb 12 west
    then hour
    else if leb (24 + west) hour
    then to_u8 (hour - west - 24)
    else if ltb hour west
    then to_u8 (hour + 24 - west)
    else to_u8 (hour - west)

unfoldable pub to_zone : ℤ → RtcTime → RtcTime
to_zone tz t = record t { hour = zone_hour tz t.hour }

-- `efi` is what `uefi_get_time` gives, `none` when there is no firmware clock or it fails.
unfoldable pub get_time : Option RtcTime → ℤ → List (Registers × Registers) → ℕ → Option RtcTime
get_time (some efi) tz passes status_b = some (to_zone tz efi)
get_time none tz passes status_b = elim (cmos_get_time_raw passes status_b) [
  | none ↦ none
  | some t ↦ some (to_zone tz t)
]

-- `%02d` of a byte.
unfoldable pub two_digits : ℕ → List ℕ
two_digits n =
    if ltb n 100
    then (48 + n / 10) ∷ (48 + n % 10) ∷ []
    else (48 + n / 100) ∷ (48 + n / 10 % 10) ∷ (48 + n % 10) ∷ []

unfoldable pub get_formatted_time : RtcTime → List ℕ
get_formatted_time t = two_digits t.hour ++ (58 ∷ two_digits t.minute) ++ (58 ∷ two_digits t.second)

-- How many ticks of the timer `delaySeconds` sleeps, a `uint32_t` seconds; it does not sleep at 0.
unfoldable pub delay_seconds : ℕ → Option ℕ
delay_seconds seconds = if seconds == 0 then none else some (seconds * 250)
