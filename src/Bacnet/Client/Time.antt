-- ===== src/Bacnet/Client/Time.antt =====
-- The time that is read from a device.
use building_controls.Prelude.{
  ◌+◌, ◌<◌, min, ◌≡◌, refl, ◌≢◌, ◌⊎◌, inl, inr, false, ◌&&◌, Option, none, some, arith, leb,
  Bool-cases, Option-cases, nat_eq, string_eq, list_eq, option_eq, pair_eq,
}
use building_controls.Prelude.Dates.{date}
use building_controls.Bacnet.Client.{
  DeviceDate, DeviceTime, Moment, datetime, unspecified, read_device_time,
}

-- no field but the second is left unspecified
abbrev pub IsSpecified : DeviceDate → DeviceTime → Type 0
IsSpecified d t =
    (d.year ≢ 255) × (d.month ≢ 255) × (d.day ≢ 255) × (t.hour ≢ 255) × (t.minute ≢ 255)

unspecified-IsSpecified :
    (d : DeviceDate) (t : DeviceTime) → unspecified d t ≡ false → IsSpecified d t
unspecified-IsSpecified d t h =
    (ground arith, ground arith, ground arith, ground arith, ground arith)

-- A time that is read is a day of the calendar and a time of the day: the fields of the device, its
-- years counted from 1900, a second above 59 taken as 59. None of its fields but the second may be
-- unspecified. A device that does not answer, or whose clock is not set, gives no time.
pub read_device_time_lem :
    (o : Option DeviceDate) (p : Option DeviceTime)
    → ((d : DeviceDate) × (t : DeviceTime) × (m : Moment) × (o ≡ some d)
        × (p ≡ some t)
        × (read_device_time o p ≡ some m)
        × IsSpecified d t
        × (date (d.year + 1900) d.month d.day ≡ some m.day)
        × (m.time ≡ record t { second = min t.second 59 })
        × (m.time.hour < 24)
        × (m.time.minute < 60)
        × (m.time.second < 60))
      ⊎ (read_device_time o p ≡ none)
unfolding read_device_time
read_device_time_lem none p = inr refl
read_device_time_lem (some d) none = inr refl
read_device_time_lem (some d) (some t) = elim (Bool-cases (unspecified d t)) [
  | inl unset ↦ rw (unset, read_device_time) (inr refl)
  | inr set ↦ elim (Option-cases (date (d.year + 1900) d.month d.day)) [
    | inl wrong ↦ rw (set, wrong, read_device_time, datetime) (inr refl)
    | inr (day, right) ↦
        elim (Bool-cases ((leb t.hour 23 && leb t.minute 59) && leb (min t.second 59) 59)) [
          | inr late ↦ rw (set, right, late, read_device_time, datetime) (inr refl)
          | inl in_day ↦
              rw (set, right, in_day, read_device_time, datetime)
                (inl (
                  d,
                  t,
                  _,
                  refl,
                  refl,
                  refl,
                  unspecified-IsSpecified d t set,
                  right,
                  refl,
                  ground arith,
                  ground arith,
                  ground arith,
                ))
        ]
  ]
]
