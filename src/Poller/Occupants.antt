-- ===== src/Poller/Occupants.antt =====
-- Which rows of the audit log a sequence of polls writes in the name of an occupant.
use building_controls.Prelude.{
  ℕ, ◌≡◌, refl, ◌∙◌, ◌≢◌, true, false, String, Option, none, some, List, [], ◌∷◌, arith, nat_eq,
  string_eq, list_eq, option_eq, pair_eq,
}
use building_controls.Prelude.Int.{ℤ}
use building_controls.Prelude.Dict.{insert, lookup-insert_self}
use building_controls.Value.{Values}
use building_controls.Cache.{
  DeviceState, Cache, get, modify, record_success, record_failure, succeeded, failed,
}
use building_controls.Database.{Database, log}
use building_controls.Poller.{
  SetpointStatus, occupied, unoccupied, temporary, standby, status, status_beq,
  note_setpoint_change, Answer, answered, unreachable, fault, points_of, noted, poll_device,
}
use building_controls.Poller.Notes.{
  transitions, agrees, steady, log-transitions, quiet, note-quiet, note-none,
}

modify-get :
    (id : ℕ) (f : DeviceState → DeviceState) (c : Cache) (st : DeviceState)
    → get id c ≡ some st
    → (c' : Cache) × (modify id f c ≡ some c') × (get id c' ≡ some (f st))
unfolding modify
modify-get id f c st h =
    rw (h, modify)
      (
        record c { devices = insert id (f st) c.devices },
        refl,
        lookup-insert_self id (f st) c.devices,
      )

module _ (float : String → Option ℤ) where
  abbrev pub run_polls :
      ℕ → String → List (ℕ × Answer) → Cache → Database → Option (Cache × Database)
  run_polls id name [] c db = some (c, db)
  run_polls id name ((now, a) ∷ polls) c db = elim (poll_device float id name now a c db) [
    | none ↦ none
    | some s ↦ run_polls id name polls s.0 s.1
  ]

  -- one poll of a registered device: it does not raise, and without a change of status it logs none
  abbrev Quiet : ℕ → SetpointStatus → Option (Cache × Database) → Database → Type 0
  Quiet id s outcome db =
      (c' : Cache) × (db' : Database) × (st : DeviceState) × (outcome ≡ some (c', db'))
      × (get id c' ≡ some st)
      × (agrees s (status st.points) ≡ true)
      × (transitions db' ≡ transitions db)
      × (status_beq s temporary ≡ false → db' ≡ db)

  failed-Quiet :
      (id now : ℕ) (s : SetpointStatus) (err : String) (c : Cache) (db : Database)
      (st : DeviceState)
      → get id c ≡ some st
      → agrees s (status st.points) ≡ true
      → Quiet id s (elim (record_failure id err now c) [ none ↦ none | some c' ↦ some (c', db) ]) db
  unfolding record_failure failed
  failed-Quiet id now s err c db st here a =
      let (c', done, kept) = modify-get id (failed err now) c st here in
      rw done (c', db, failed err now st, refl, kept, a, refl, λ n. refl)

  noted-Quiet :
      (id now : ℕ) (s : SetpointStatus) (name : String) (o : Option (Option String)) (c : Cache)
      (db : Database) (st : DeviceState)
      → get id c ≡ some st
      → agrees s (status st.points) ≡ true
      → ((a : Option String) → o ≡ some a → quiet a ≡ true)
      → ((a : Option String) → status_beq s temporary ≡ false → o ≡ some a → a ≡ none)
      → Quiet id s (noted float id name now o c db) db
  unfolding noted quiet
  noted-Quiet id now s name none c db st here a q z =
      failed-Quiet id now s "internal error" c db st here a
  noted-Quiet id now s name (some none) c db st here a q z =
      (c, db, st, refl, here, a, refl, λ n. refl)
  noted-Quiet id now s name (some (some x)) c db st here a q z = (
    c,
    log "occupant" x (some name) db,
    st,
    refl,
    here,
    a,
    log-transitions x name db (ground (arith, q (some x) refl)),
    (λ n. let gone = z (some x) n refl in ground arith),
  )

  poll-Quiet :
      (id now : ℕ) (name : String) (s : SetpointStatus) (a : Answer) (c : Cache) (db : Database)
      (st : DeviceState)
      → get id c ≡ some st
      → agrees s (status st.points) ≡ true
      → steady s ((now, a) ∷ []) ≡ true
      → Quiet id s (poll_device float id name now a c db) db
  unfolding poll_device record_success
  poll-Quiet id now name s (unreachable err) c db st here a ok =
      failed-Quiet id now s err c db st here a
  poll-Quiet id now name s fault c db st here a ok =
      failed-Quiet id now s "internal error" c db st here a
  poll-Quiet id now name s (answered points elapsed) c db st here a ok =
      let (c', done, kept) = modify-get id (succeeded points (some elapsed) now) c st here in
      let now_s : agrees s (status points) ≡ true = ground (arith, ok) in
      let o = note_setpoint_change float (points_of (get id c)) points in
      let before : agrees s (status (points_of (get id c))) ≡ true = rw here a in
      let fine : (x : Option String) → o ≡ some x → quiet x ≡ true =
        λ x e. note-quiet float (points_of (get id c)) points s x before now_s e in
      rw (done, poll_device)
        (noted-Quiet id now s name o c' db (succeeded points (some elapsed) now st) kept
          (in_place points elapsed now now_s) fine
          (λ x n e. note-none float (points_of (get id c)) points s x before now_s n e))
    where
      in_place :
          (points : Values) (elapsed now : ℕ)
          → agrees s (status points) ≡ true
          → agrees s (status (succeeded points (some elapsed) now st).points) ≡ true
      in_place points elapsed now h = unfold succeeded in h

  run_polls-Quiet :
      (id : ℕ) (name : String) (s : SetpointStatus) (polls : List (ℕ × Answer)) (c : Cache)
      (db : Database) (st : DeviceState)
      → get id c ≡ some st
      → agrees s (status st.points) ≡ true
      → steady s polls ≡ true
      → (c' : Cache) × (db' : Database) × (run_polls id name polls c db ≡ some (c', db'))
        × (transitions db' ≡ transitions db)
        × (status_beq s temporary ≡ false → db' ≡ db)
  run_polls-Quiet id name s [] c db st here a ok = (c, db, refl, refl, λ n. refl)
  run_polls-Quiet id name s ((now, x) ∷ polls) c db st here a ok =
      let (one, rest) = split_steady x ok in
      let (c1, db1, st1, done, here1, a1, same1, none1) =
        poll-Quiet id now name s x c db st here a one in
      let (c2, db2, done2, same2, none2) =
        run_polls-Quiet id name s polls c1 db1 st1 here1 a1 rest in
      (c2, db2, rw (done, run_polls) done2, same2 ∙ same1, λ n. none2 n ∙ none1 n)
    where
      split_steady :
          (x : Answer)
          → steady s ((now, x) ∷ polls) ≡ true
          → (steady s ((now, x) ∷ []) ≡ true) × (steady s polls ≡ true)
      split_steady (answered points elapsed) h = (ground (arith, h), ground (arith, h))
      split_steady (unreachable err) h = (refl, h)
      split_steady fault h = (refl, h)

  -- While every reading of a device that carries a setpoint status, the one kept from before too, carries
  -- the same one, no poll logs that
  -- the status became temporary (`setpoint.temporary`) or stopped being so (`setpoint.scheduled`),
  -- however many readings lack the status and however many polls fail in between; no poll of a registered
  -- device raises; and while that status is another than temporary, the polls leave the database as it
  -- was. Under a temporary status the first reading of it and the offsets that move may still be logged.
  pub run_polls-transitions :
      (id : ℕ) (name : String) (s : SetpointStatus) (polls : List (ℕ × Answer)) (c : Cache)
      (db : Database) (st : DeviceState)
      → get id c ≡ some st
      → agrees s (status st.points) ≡ true
      → steady s polls ≡ true
      → (c' : Cache) × (db' : Database) × (run_polls id name polls c db ≡ some (c', db'))
        × (transitions db' ≡ transitions db)
        × (s ≢ temporary → db' ≡ db)
  run_polls-transitions id name s polls c db st here a ok =
      let (c', db', done, same, nothing) = run_polls-Quiet id name s polls c db st here a ok in
      (c', db', done, same, λ n. nothing (not_temporary s n))
    where
      not_temporary : (x : SetpointStatus) → x ≢ temporary → status_beq x temporary ≡ false
      not_temporary occupied n = refl
      not_temporary unoccupied n = refl
      not_temporary temporary n = absurd (n refl)
      not_temporary standby n = refl
