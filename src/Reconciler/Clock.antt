-- ===== src/Reconciler/Clock.antt =====
-- Keeping a device's clock on the wall time of the host (bms/reconciler.py `_reconcile_clock`). Times and
-- drifts are milliseconds; the moments at which the code looks at the host's clock are arguments, and a
-- device answers a read according to the moment of it.
use building_controls.Prelude.{
  ℕ, ◌*◌, ◌/◌, ◌+◌, ◌-◌, ◌≤◌, ◌≡◌, refl, inl, inr, Bool, true, not, String, Option, none, some, [],
  ◌∷◌, ◌++◌, arith, leb, leb→le, le→leb, if◌then◌else◌, Bool-cases, nat_eq, string_eq, list_eq,
  option_eq, pair_eq,
}
use building_controls.Prelude.Int.{ℤ, abs, sub_ℕ}
use building_controls.Prelude.Dict.{Dict, lookup, insert, lookup-insert_self}
use building_controls.Database.{log, log_as}
use building_controls.Reconciler.{Pass, fails, correct}

-- What the client offers for the clock of one device. A read is `none` where the device does not answer.
-- A time is sent or not; the device after it comes back in both cases.
pub record ClockClient (D : Type 0) : Type 0 where
  pub read_device_time : ℕ → D → Option ℕ
  pub sync_time : ℕ → ℕ → D → Bool × D

-- A `datetime` without its fraction of a second.
unfoldable pub whole_seconds : ℕ → ℕ
whole_seconds t = t / 1000 * 1000

-- The device behind the client: the time that it shows when it is asked, `none` where it does not answer
-- or its clock is not set, and what a `TimeSynchronizationRequest` does to it, sent or not.
pub record ClockDevice (D : Type 0) : Type 0 where
  pub local_time : ℕ → D → Option ℕ
  pub synchronize : ℕ → ℕ → D → Bool × D

-- `BacnetClient.read_device_time` and `BacnetClient.sync_time` (bms/bacnet.py): what is read and what is
-- sent are whole seconds, whatever the device and the host know.
abbrev pub clock_client : {D : Type 0} → ClockDevice D → ClockClient D
clock_client device = record {
  read_device_time =
      λ m d. elim (device.local_time m d) [ none ↦ none | some t ↦ some (whole_seconds t) ];
  sync_time = λ t s d. device.synchronize (whole_seconds t) s d;
}

-- The host's time at the first read, at `now`, when the time is sent, at the second read, and when
-- the second drift is taken.
pub record Moments : Type 0 where
  pub first_read : ℕ
  pub now : ℕ
  pub sent : ℕ
  pub second_read : ℕ
  pub checked : ℕ

pub record ClockPass (D : Type 0) : Type 0 where
  pub pass : Pass D
  pub drifts : Dict ℕ ℤ

-- the pass after a re-read that is close enough, and after one that is not
abbrev synced : {D : Type 0} → String → String → Pass D → Pass D
synced actor name p = record p {
  result = record p.result { changed = p.result.changed ++ "clock" ∷ [] };
  db = log actor "reconcile.clock" (some name) p.db;
}

abbrev refused : {D : Type 0} → String → String → Pass D → Pass D
refused actor name p = record p {
  result = record p.result { errors = p.result.errors ++ "clock sync did not take" ∷ [] };
  db = log_as "error" actor "reconcile.clock" (some name) p.db;
}

module _ {D : Type 0} (client : ClockClient D) (actor name : String) (id limit : ℕ)
    (moments : Moments) where
  unfoldable pub recheck : ClockPass D → ClockPass D
  recheck c = elim (client.read_device_time moments.second_read c.pass.thermostat) [
    | none ↦ record c {
      pass = fails "clock sync sent but device clock unreadable afterwards" c.pass;
    }
    | some after ↦
        let new_drift = sub_ℕ after moments.checked in
        record {
          pass =
              if leb (abs new_drift) limit
              then synced actor name c.pass
              else refused actor name c.pass;
          drifts = insert id new_drift c.drifts;
        }
  ]

  unfoldable pub send_time : ClockPass D → ClockPass D
  unfolding recheck
  send_time c =
      let answer = client.sync_time moments.now moments.sent c.pass.thermostat in
      let p = record c.pass { thermostat = answer.1 } in
      if answer.0 then recheck (record c { pass = p }) else record c { pass = fails "clock sync" p }

  unfoldable pub reconcile_clock : Bool → ClockPass D → ClockPass D
  unfolding send_time
  reconcile_clock time_sync_enabled c =
      if not time_sync_enabled
      then c
      else elim (client.read_device_time moments.first_read c.pass.thermostat) [
        | none ↦ record c { pass = fails "could not read device clock" c.pass }
        | some before ↦
            let drift = sub_ℕ before moments.now in
            let seen = record c { drifts = insert id drift c.drifts } in
            if leb (abs drift) limit
            then record seen { pass = correct "clock" seen.pass }
            else send_time seen
      ]

-- The device answers, takes the time that it is sent, and its clock then runs as the host's does.
pub record IsPunctual {D : Type 0} (device : ClockDevice D) : Type 0 where
  pub reads : (m : ℕ) (d : D) → (t : ℕ) × (device.local_time m d ≡ some t)
  pub takes : (t s : ℕ) (d : D) → (device.synchronize t s d).0 ≡ true
  pub runs :
      (t s m : ℕ) (d : D)
      → s ≤ m
      → device.local_time m (device.synchronize t s d).1 ≡ some (t + (m - s))

module _ {D : Type 0} (device : ClockDevice D) (actor name : String) (id limit : ℕ)
    (moments : Moments) where
  -- the pass added no error, and the drift it recorded is within the limit
  abbrev pub InTime : ClockPass D → ClockPass D → Type 0
  InTime c c' =
      (c'.pass.result.errors ≡ c.pass.result.errors)
      × ((drift : ℤ) × (lookup id c'.drifts ≡ some drift) × (abs drift ≤ limit))

  recheck-InTime :
      (c : ClockPass D) (after : ℕ)
      → (clock_client device).read_device_time moments.second_read c.pass.thermostat ≡ some after
      → abs (sub_ℕ after moments.checked) ≤ limit
      → InTime c (recheck (clock_client device) actor name id limit moments c)
  unfolding recheck
  recheck-InTime c after reading near =
      let drift = sub_ℕ after moments.checked in
      rw (reading, recheck)
        (rw (le→leb _ _ near, recheck) (refl, (drift, lookup-insert_self id drift c.drifts, near)))

  small_drift :
      moments.now ≤ moments.sent
      → moments.sent ≤ moments.second_read
      → moments.second_read ≤ moments.checked
      → (moments.sent - moments.now) + (moments.checked - moments.second_read) + 1998 ≤ limit
      → abs (
          sub_ℕ
            (whole_seconds (whole_seconds moments.now + (moments.second_read - moments.sent)))
            moments.checked)
        ≤ limit
  unfolding whole_seconds
  small_drift a b c d = ground arith

  send_time-InTime :
      (punctual : IsPunctual device) (c : ClockPass D)
      → moments.now ≤ moments.sent
      → moments.sent ≤ moments.second_read
      → moments.second_read ≤ moments.checked
      → (moments.sent - moments.now) + (moments.checked - moments.second_read) + 1998 ≤ limit
      → InTime c (send_time (clock_client device) actor name id limit moments c)
  unfolding send_time
  send_time-InTime punctual c h1 h2 h3 h4 =
      let d = c.pass.thermostat in
      let t = whole_seconds moments.now in
      let d' = (device.synchronize t moments.sent d).1 in
      rw (punctual.takes t moments.sent d, send_time)
        (recheck-InTime (record c { pass = record c.pass { thermostat = d' } })
          (whole_seconds (t + (moments.second_read - moments.sent)))
          (rw (punctual.runs t moments.sent moments.second_read d h2) refl)
          (small_drift h1 h2 h3 h4))

  -- Where the clock is kept at all, the device answers, takes the time it is sent and then runs at the
  -- host's pace, and the time lost between looking at the host's clock and sending, and between the
  -- second read and its check, is within the limit together with the 1998 milliseconds that sending and
  -- reading whole seconds can lose, a pass adds no error and ends with a recorded drift within the limit,
  -- however far out the device's clock was.
  pub reconcile_clock-InTime :
      (punctual : IsPunctual device) (c : ClockPass D)
      → moments.now ≤ moments.sent
      → moments.sent ≤ moments.second_read
      → moments.second_read ≤ moments.checked
      → (moments.sent - moments.now) + (moments.checked - moments.second_read) + 1998 ≤ limit
      → InTime c (reconcile_clock (clock_client device) actor name id limit moments true c)
  unfolding reconcile_clock
  reconcile_clock-InTime punctual c h1 h2 h3 h4 =
      let (before, reading) = punctual.reads moments.first_read c.pass.thermostat in
      let drift = sub_ℕ (whole_seconds before) moments.now in
      let seen = record c { drifts = insert id drift c.drifts } in
      elim (Bool-cases (leb (abs drift) limit)) [
        | inl near ↦
            rw (reading, reconcile_clock)
              (rw (near, reconcile_clock)
                (refl, (drift, lookup-insert_self id drift c.drifts, leb→le _ _ near)))
        | inr far ↦
            rw (reading, reconcile_clock)
              (rw (far, reconcile_clock) (send_time-InTime punctual seen h1 h2 h3 h4))
      ]
