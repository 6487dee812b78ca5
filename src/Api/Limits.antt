-- ===== src/Api/Limits.antt =====
-- No request writes a set-point beyond its limits.
use building_controls.Prelude.{
  ℕ, ◌≡◌, refl, sym, ◌⊎◌, inl, inr, Bool, true, false, ◌&&◌, String, Option, none, some, [], ◌∷◌,
  ◌++◌, arith, Bool-cases, Option-cases, is_some, nat_eq, string_eq, list_eq, option_eq, pair_eq,
}
use building_controls.Prelude.Int.{leb_ℤ}
use building_controls.Prelude.Dict.{Dict, lookup}
use building_controls.Value.{Value, number, flag, text, null}
use building_controls.Points.{points, setpoint_limits}
use building_controls.Database.{manager, Database}
use building_controls.Auth.User.{User, at_least, may_access_zone}
use building_controls.Cache.{Cache}
use building_controls.Zones.{of_device}
use building_controls.Reconciler.{clamped, min_ℤ, max_ℤ}
use building_controls.Reconciler.InPlace.{lookup-ordered, limits_ordered, between}
use building_controls.Api.Caller.{Reply, refused, require, require_device}
use building_controls.Api.Writes.{
  Write, Plant, as_float, written_value, send, write_known, write_point, reflect,
}

-- a value that the limits of a key allow; a key without limits allows every value
abbrev pub within_limits : String → Value → Bool
within_limits key v = elim (lookup key setpoint_limits) [
  | none ↦ true
  | some l ↦ elim v [
    | number x ↦ leb_ℤ l.0 x && leb_ℤ x l.1
    | flag b ↦ false
    | text s ↦ false
    | null ↦ false
  ]
]

written-within :
    (key : String) (value v : Value) → written_value key value ≡ some v → within_limits key v ≡ true
unfolding written_value clamped
written-within key value v h = elim (Option-cases (as_float value)) [
  | inl none_ ↦ let g = rw (none_, written_value) at h in ground arith
  | inr (x, float) ↦
      let g = rw (float, written_value) at h in
      elim (Option-cases (lookup key setpoint_limits)) [
        | inl free ↦ rw (free, within_limits) refl
        | inr (l, limited) ↦
            let g' = rw limited at g in
            let e : number (min_ℤ l.1 (max_ℤ l.0 x)) ≡ v = ground arith in
            rw (limited, within_limits)
              (rw (sym e)
                (between l.0 l.1 x (lookup-ordered key setpoint_limits l limits_ordered limited)))
      ]
]

module _ (acknowledges : Write → Bool) where
  -- a write that was sent, and what became of the cache
  abbrev pub Sent : ℕ → String → Plant → Reply Value × Plant → Type 0
  Sent device_id key w (reply, w') =
      (v : Value) × (w'.writes
        ≡ w.writes ++ record { device_id = device_id; key = key; value = v } ∷ [])
      × (within_limits key v ≡ true)
      × ((acknowledges (record { device_id = device_id; key = key; value = v }) ≡ true)
          ⊎ ((reply ≡ refused 503) × (w'.cache ≡ w.cache)))

  reflect_sent :
      (o : Option Cache) (sent : Plant) (reply : Reply Value)
      → (reflect acknowledges o sent reply).1.writes ≡ sent.writes
  reflect_sent none sent reply = refl
  reflect_sent (some c) sent reply = refl

  write_known_lem :
      (device_id : ℕ) (key : String) (value : Value) (w : Plant)
      → ((lookup key points ≡ some true)
          × Sent device_id key w (write_known acknowledges device_id key value w))
        ⊎ (((e : ℕ) × ((write_known acknowledges device_id key value w).0 ≡ refused e))
            × ((write_known acknowledges device_id key value w).1 ≡ w))
  unfolding write_known send
  write_known_lem device_id key value w = elim (Option-cases (lookup key points)) [
    | inl unknown ↦ rw (unknown, write_known) (inr ((_, refl), refl))
    | inr (false, known) ↦ rw (known, write_known) (inr ((_, refl), refl))
    | inr (true, known) ↦
        rw (known, write_known)
          (elim (Option-cases (written_value key value)) [
            | inl bad ↦ rw (bad, write_known) (inr ((_, refl), refl))
            | inr (v, good) ↦
                let fits = written-within key value v good in
                let write : Write = record { device_id = device_id; key = key; value = v } in
                rw (good, write_known)
                  (elim (Bool-cases (acknowledges write)) [
                    | inl acked ↦
                        rw (acked, send) (inl (refl, (v, reflect_sent _ _ _, fits, inl acked)))
                    | inr lost ↦ rw (lost, send) (inl (refl, (v, refl, fits, inr (refl, refl))))
                  ])
          ])
  ]

  -- A write is sent only for a manager or an admin, to a device of the inventory and to a writable point,
  -- once, and with a value within the limits of the point; if it is not acknowledged, the reply is 503 and
  -- the cache stays as it was. In every other case the call is refused and nothing changes.
  pub write_point_lem :
      (inventory : Dict ℕ String) (device_id : ℕ) (key : String) (value : Value) (u : User)
      (db : Database) (w : Plant)
      → let (reply, w') = write_point acknowledges inventory device_id key value u db w in
        ((at_least u manager ≡ true)
          × (is_some (lookup device_id inventory) ≡ true)
          × (lookup key points ≡ some true)
          × Sent device_id key w (reply, w'))
        ⊎ (((e : ℕ) × (reply ≡ refused e)) × (w' ≡ w))
  unfolding write_point require require_device
  write_point_lem inventory device_id key value u db w = elim (Bool-cases (at_least u manager)) [
    | inr low ↦ rw (low, write_point) (inr ((_, refl), refl))
    | inl staff ↦
        rw (staff, write_point)
          (elim (Option-cases (lookup device_id inventory)) [
            | inl absent ↦ rw (absent, write_point) (inr ((_, refl), refl))
            | inr (own, found) ↦
                rw (found, write_point)
                  (elim (Bool-cases (may_access_zone u (of_device device_id own db))) [
                    | inr away ↦ rw (away, write_point) (inr ((_, refl), refl))
                    | inl near ↦
                        rw (near, write_point)
                          (elim (write_known_lem device_id key value w) [
                            | inl (known, sent) ↦ inl (refl, refl, known, sent)
                            | inr left ↦ inr left
                          ])
                  ])
          ])
  ]
