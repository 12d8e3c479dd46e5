-- ===== src/Rtc/Zone.antt =====
-- rtc.cpp: the hour in a time zone, and the text of a time.
use singularity.Common.{
  ℕ, ◌+◌, ◌-◌, ◌%◌, ◌^◌, ◌≤◌, ◌<◌, ◌≡◌, ap, some, arith, ltb, leb, if◌then◌else◌, List, length,
}
use singularity.Rtc.{
  ℤ, pos, negsuc, RtcTime, Registers, zone_hour, to_zone, get_time, get_formatted_time, two_digits,
}

-- The hour of the day in a zone so many hours from the clock's, and the clock's own for a zone that does
-- not exist.
abbrev pub civil_hour : ℤ → ℕ → ℕ
civil_hour (pos n) h = if leb n 14 then (h + n) % 24 else h
civil_hour (negsuc n) h = if ltb n 12 then (h + 24 - (n + 1)) % 24 else h

zone_hour-civil_hour : (tz : ℤ) (h : ℕ) → h < 24 → zone_hour tz h ≡ civil_hour tz h
unfolding zone_hour
zone_hour-civil_hour (pos n) h few = ground arith
zone_hour-civil_hour (negsuc n) h few = ground arith

-- The firmware's time is given with its hour moved to the time zone, modulo a day, and with its date, its
-- minute and its second as they are, whether or not the zone's day is another one.
pub get_time-civil_hour :
    (t : RtcTime) (tz : ℤ) (passes : List (Registers × Registers)) (status_b : ℕ)
    → t.hour < 24
    → (get_time (some t) tz passes status_b ≡ some (record t { hour = civil_hour tz t.hour }))
      × (civil_hour tz t.hour < 24)
unfolding get_time to_zone
get_time-civil_hour t tz passes status_b few =
    (ap (λ h. some (record t { hour = h })) (zone_hour-civil_hour tz t.hour few), below tz)
  where
    below : (tz : ℤ) → civil_hour tz t.hour < 24
    below (pos n) = ground arith
    below (negsuc n) = ground arith

-- The text of a time with its final 0 fits into 16 bytes whatever the clock says.
get_formatted_time-fits :
    (t : RtcTime)
    → t.hour < 2 ^ 8
    → t.minute < 2 ^ 8
    → t.second < 2 ^ 8
    → length (get_formatted_time t) + 1 ≤ 16
unfolding get_formatted_time two_digits
get_formatted_time-fits t h m s = ground arith
