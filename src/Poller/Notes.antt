-- ===== src/Poller/Notes.antt =====
-- What `_note_setpoint_change` (bms/poller.py) writes in the audit log while the status stays the same.
use building_controls.Prelude.{
  ℕ, ◌≡◌, refl, sym, ap, ◌∙◌, inl, inr, Bool, true, false, ◌&&◌, ◌||◌, not, String, Option, none,
  some, List, [], ◌∷◌, ◌++◌, arith, Bool-cases, Option-cases, is_nil, ◌==◌, nat_eq, string_eq,
  list_eq, option_eq, pair_eq,
}
use building_controls.Prelude.Int.{ℤ}
use building_controls.Prelude.Table.{count}
use building_controls.Value.{Values}
use building_controls.Database.{Database, Audit, log}
use building_controls.Poller.{
  SetpointStatus, occupied, unoccupied, temporary, standby, status, status_beq, moved, offset_keys,
  action, note_setpoint_change, Answer, answered, unreachable, fault,
}

-- a row that says that the status became temporary, or stopped being so; the first temporary status that
-- is read and an offset that moves under one have rows of their own
abbrev pub is_transition : Audit → Bool
is_transition r = r.action == "setpoint.temporary" || r.action == "setpoint.scheduled"

abbrev pub transitions : Database → ℕ
transitions db = count is_transition db.audit

-- a status that is either missing or the one given
abbrev pub agrees : SetpointStatus → Option SetpointStatus → Bool
agrees s none = true
agrees s (some w) = status_beq w s

abbrev pub steady : SetpointStatus → List (ℕ × Answer) → Bool
steady s [] = true
steady s ((now, answered points elapsed) ∷ polls) = agrees s (status points) && steady s polls
steady s ((now, unreachable err) ∷ polls) = steady s polls
steady s ((now, fault) ∷ polls) = steady s polls

pub log-transitions :
    (a name : String) (db : Database)
    → (a == "setpoint.temporary" || a == "setpoint.scheduled") ≡ false
    → transitions (log "occupant" a (some name) db) ≡ transitions db
log-transitions a name db h = at_end db.audit
  where
    row : Audit
    row = record { actor = "occupant"; action = a; target = some name; outcome = "ok" }

    at_end : (t : List Audit) → count is_transition (t ++ row ∷ []) ≡ count is_transition t
    at_end [] = rw h refl
    at_end (r ∷ t) = ground (arith, at_end t)

pub status_beq_eq : (a b : SetpointStatus) → status_beq a b ≡ true → a ≡ b
status_beq_eq a b h = ground arith

unfoldable pub quiet : Option String → Bool
quiet none = true
quiet (some a) = not (a == "setpoint.temporary" || a == "setpoint.scheduled")

action-quiet :
    (first m : Bool) (was : Option SetpointStatus) (now s : SetpointStatus)
    → agrees s was ≡ true
    → status_beq now s ≡ true
    → quiet (action first was now m) ≡ true
unfolding quiet
action-quiet true m was now s a b = elim (Bool-cases (status_beq now temporary)) [
  | inl t ↦ rw (t, quiet) refl
  | inr f ↦ rw (f, quiet) refl
]
action-quiet false m none now s a b = refl
action-quiet false m (some w) now s a b =
    let same : status_beq w now ≡ true = rw (status_beq_eq w s a, status_beq_eq now s b) (self s) in
    rw (same, quiet)
      (elim (Bool-cases (m && status_beq now temporary)) [
        | inl t ↦ rw (t, quiet) refl
        | inr f ↦ rw (f, quiet) refl
      ])
  where
    self : (x : SetpointStatus) → status_beq x x ≡ true
    self occupied = refl
    self unoccupied = refl
    self temporary = refl
    self standby = refl

action-none :
    (first m : Bool) (was : Option SetpointStatus) (now s : SetpointStatus)
    → agrees s was ≡ true
    → status_beq now s ≡ true
    → status_beq s temporary ≡ false
    → action first was now m ≡ none
action-none true m was now s a b n = rw (status_beq_eq now s b, n) refl
action-none false m none now s a b n = refl
action-none false m (some w) now s a b n =
    rw (status_beq_eq w s a, status_beq_eq now s b) (by_status s n)
  where
    by_status :
        (x : SetpointStatus) → status_beq x temporary ≡ false → action false (some x) x m ≡ none
    by_status occupied n = ground arith
    by_status unoccupied n = ground arith
    by_status temporary n = ground arith
    by_status standby n = ground arith

module _ (float : String → Option ℤ) where
  pub note-quiet :
      (previous current : Values) (s : SetpointStatus) (a : Option String)
      → agrees s (status previous) ≡ true
      → agrees s (status current) ≡ true
      → note_setpoint_change float previous current ≡ some a
      → quiet a ≡ true
  unfolding note_setpoint_change quiet
  note-quiet previous current s a p c h = elim (Option-cases (status current)) [
    | inl unread ↦ let g = rw (unread, note_setpoint_change) at h in ground (arith, g)
    | inr (now, read) ↦
        let g = rw (read, note_setpoint_change) at h in
        let now_s = rw read at c in
        elim (Option-cases (moved float offset_keys previous current)) [
          | inl raises ↦ let g' = rw raises at g in ground arith
          | inr (m, computed) ↦
              let g' = rw computed at g in
              let e : action (is_nil previous) (status previous) now m ≡ a = ground arith in
              ap quiet (sym e) ∙ action-quiet (is_nil previous) m (status previous) now s p now_s
        ]
  ]

  pub note-none :
      (previous current : Values) (s : SetpointStatus) (a : Option String)
      → agrees s (status previous) ≡ true
      → agrees s (status current) ≡ true
      → status_beq s temporary ≡ false
      → note_setpoint_change float previous current ≡ some a
      → a ≡ none
  unfolding note_setpoint_change
  note-none previous current s a p c n h = elim (Option-cases (status current)) [
    | inl unread ↦ let g = rw (unread, note_setpoint_change) at h in ground (arith, g)
    | inr (now, read) ↦
        let g = rw (read, note_setpoint_change) at h in
        let now_s = rw read at c in
        elim (Option-cases (moved float offset_keys previous current)) [
          | inl raises ↦ let g' = rw raises at g in ground arith
          | inr (m, computed) ↦
              let g' = rw computed at g in
              let e : action (is_nil previous) (status previous) now m ≡ a = ground arith in
              sym e ∙ action-none (is_nil previous) m (status previous) now s p now_s n
        ]
  ]
