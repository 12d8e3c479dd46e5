-- ===== src/Rtc/Tests.antt =====
-- 23:59:58 on 31 December 1999, in the registers and in a zone.
use singularity.Common.{◌<◌, ◌≡◌, refl, some, arith, [], ◌∷◌, ◌++◌}
use singularity.Rtc.{
  pos, negsuc, RtcTime, Registers, get_time, cmos_get_time_raw, same_registers, get_formatted_time,
  two_digits,
}
use singularity.Rtc.Decode.{IsTime, encode, cmos_get_time_raw-encode}
use singularity.Rtc.Zone.{civil_hour, get_time-civil_hour}

abbrev night : RtcTime
night = record { second = 58; minute = 59; hour = 23; day = 31; month = 12; year = 1999 }

night-IsTime : IsTime night
night-IsTime = record {
  seconds = omega arith;
  minutes = omega arith;
  hours = omega arith;
  days = (omega arith, omega arith);
  months = (omega arith, omega arith);
  years = (omega arith, omega arith);
}

-- The registers when the seconds move on between the two passes.
abbrev torn : Registers × Registers
torn = (encode 0 (record night { second = 57 }), encode 0 night)

encode_test : (encode 0 night).hr ≡ 0x91
encode_test = refl

cmos_get_time_raw-encode_example :
    cmos_get_time_raw ((torn ∷ []) ++ (encode 0 night, encode 0 night) ∷ []) 0 ≡ some night
unfolding same_registers
cmos_get_time_raw-encode_example =
    cmos_get_time_raw-encode 0 night (torn ∷ []) [] night-IsTime (refl, tt)

get_time-civil_hour_example :
    (get_time (some night) (pos 3) [] 0 ≡ some (record night { hour = civil_hour (pos 3) 23 }))
    × (civil_hour (pos 3) 23 < 24)
get_time-civil_hour_example = get_time-civil_hour night (pos 3) [] 0 (omega arith)

west_test : civil_hour (negsuc 4) 2 ≡ 21
west_test = refl

text_test : get_formatted_time night ≡ 50 ∷ 51 ∷ 58 ∷ 53 ∷ 57 ∷ 58 ∷ 53 ∷ 56 ∷ []
unfolding get_formatted_time two_digits
text_test = refl
