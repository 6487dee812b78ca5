-- ===== src/Api/Commands/Order.antt =====
-- The order in which the writes of a command go out.
use building_controls.Prelude.{
  arith, zero, suc, lt→ltb, ◌≢◌, ◌==◌, eq_of_beq, ne_of_beq, ℕ, ◌≤◌, ◌≡◌, refl, sym, ap, ◌∙◌, ◌⊎◌,
  inl, inr, Bool, true, false, String, Option, none, some, List, [], ◌∷◌, ◌++◌, map, leb, leb→le,
  Bool-cases, Option-cases, All, nat_eq, string_eq, list_eq, option_eq, pair_eq, append_nil,
  append_one,
}
use mathlib.Core.Path.{subst}
use building_controls.Prelude.Dict.{Dict, lookup}
use building_controls.Value.{Values}
use building_controls.Database.{manager, Database}
use building_controls.Auth.User.{User, at_least, may_access_zone}
use building_controls.Zones.{of_device}
use building_controls.Cache.{Cache}
use building_controls.Api.Caller.{Reply, refused, require, require_device-cases}
use building_controls.Api.Writes.{Write, Plant}
use building_controls.Api.Commands.{
  Command, write_to, whole, occupancy_state, override_commands, override_cached, bypass_commands,
  bypass_cached, apply_commands, refreshed, send_all, answered, perform, override, bypass,
}

-- the writes of a bypass: no time ends it, and any other is set before the timer starts
abbrev pub timer : ℕ → List Command
timer zero = ("bypass_minutes", whole 0) ∷ ("bypass_enable", whole 0) ∷ []
timer (suc n) =
    ("bypass_duration_cfg", whole (suc n))
    ∷ ("bypass_minutes", whole (suc n))
    ∷ ("bypass_enable", whole 1)
    ∷ []

bypass_commands-timer : (minutes : ℕ) → bypass_commands minutes ≡ timer minutes
bypass_commands-timer zero = refl
bypass_commands-timer (suc n) = rw (lt→ltb 0 (suc n) (omega arith)) refl

-- the writes that force a state, and those that hand control back
abbrev pub forcing : ℕ → List Command
forcing state = ("network_override_enable", whole 1) ∷ ("occupancy_override", whole state) ∷ []

abbrev pub handing_back : List Command
handing_back = ("occupancy_override", whole 5) ∷ ("network_override_enable", whole 0) ∷ []

module _ (acknowledges : Write → Bool) where
  abbrev pub IsAcknowledged : ℕ → Command → Type 0
  IsAcknowledged id c = acknowledges (write_to id c) ≡ true

  -- All commands went out in order and were acknowledged; or a first part of them was, the next went
  -- out without being acknowledged, and the others did not go out.
  abbrev pub SentInOrder : ℕ → List Command → Plant → Bool → Plant → Type 0
  SentInOrder id cs w true w' =
      (w'.writes ≡ w.writes ++ map (write_to id) cs) × All (IsAcknowledged id) cs
  SentInOrder id cs w false w' =
      (before : List Command) × (failed : Command) × (after : List Command) × (cs
        ≡ before ++ failed ∷ after)
      × (w'.writes ≡ w.writes ++ map (write_to id) (before ++ failed ∷ []))
      × All (IsAcknowledged id) before
      × (acknowledges (write_to id failed) ≡ false)
      × (w'.cache ≡ w.cache)

  extend :
      (id : ℕ) (c : Command) (cs : List Command) (w w' : Plant) (done : Bool)
      → acknowledges (write_to id c) ≡ true
      → SentInOrder id cs (record w { writes = w.writes ++ write_to id c ∷ [] }) done w'
      → SentInOrder id (c ∷ cs) w done w'
  extend id c cs w w' true h (out, all) =
      (out ∙ append_one w.writes (write_to id c) (map (write_to id) cs), (h, all))
  extend id c cs w w' false h (before, failed, after, split, out, all, lost, kept) = (
    c ∷ before,
    failed,
    after,
    ap (λ t. c ∷ t) split,
    out ∙ append_one w.writes (write_to id c) (map (write_to id) (before ++ failed ∷ [])),
    (h, all),
    lost,
    kept,
  )

  send_all_lem :
      (id : ℕ) (cs : List Command) (w : Plant)
      → let sent = send_all acknowledges id cs w in
        SentInOrder id cs w sent.0 sent.1 × (sent.1.cache ≡ w.cache)
  unfolding send_all
  send_all_lem id [] w = ((sym (append_nil w.writes), tt), refl)
  send_all_lem id (c ∷ cs) w = elim (Bool-cases (acknowledges (write_to id c))) [
    | inr lost ↦ rw (lost, send_all) (([], c, cs, refl, refl, tt, lost, refl), refl)
    | inl good ↦
        let w1 = record w { writes = w.writes ++ write_to id c ∷ [] } in
        let (rest, kept) = send_all_lem id cs w1 in
        let sent = send_all acknowledges id cs w1 in
        rw (good, send_all) (extend id c cs w sent.1 sent.0 good rest, kept)
  ]

  answered-writes :
      (id : ℕ) (o : Option Cache) (w : Plant) → (answered acknowledges id o w).1.writes ≡ w.writes
  answered-writes id none w = refl
  answered-writes id (some c) w = refl

  -- what a command does once it is allowed
  abbrev pub Performed : ℕ → List Command → Plant → Reply ℕ × Plant → Type 0
  Performed id cs w (reply, w') =
      SentInOrder id cs w true w' ⊎ ((reply ≡ refused 503) × SentInOrder id cs w false w')

  in_order-writes :
      (id : ℕ) (cs : List Command) (w w' w'' : Plant)
      → w''.writes ≡ w'.writes
      → SentInOrder id cs w true w'
      → SentInOrder id cs w true w''
  in_order-writes id cs w w' w'' same (out, all) = (same ∙ out, all)

  perform_lem :
      (id : ℕ) (cs cached : List Command) (reading : Option Values) (now : ℕ) (w : Plant)
      → Performed id cs w (perform acknowledges id cs cached reading now w)
  unfolding perform
  perform_lem id cs cached reading now w =
      let sent = send_all acknowledges id cs w in
      let (order, kept) = send_all_lem id cs w in
      elim (Bool-cases sent.0) [
        | inl all ↦
            let o = refreshed acknowledges id reading now (apply_commands id cached sent.1.cache) in
            rw (all, perform)
              (inl (
                in_order-writes id cs w sent.1 (answered acknowledges id o sent.1).1
                  (answered-writes id o sent.1)
                  (subst (λ (b : Bool). SentInOrder id cs w b sent.1) all order)))
        | inr lost ↦
            rw (lost, perform)
              (inr (refl, subst (λ (b : Bool). SentInOrder id cs w b sent.1) lost order))
      ]

  -- A bypass goes out only to a device that the user may act on, and for at most 1080 minutes: the
  -- duration first, where there is one, then the minutes, and the switch last, so that no timer starts
  -- unless its duration was acknowledged. At the first write that is not acknowledged the reply is 503,
  -- nothing more goes out and the cache stays. In every other case the call is refused and nothing
  -- changes.
  pub bypass_lem :
      (inventory : Dict ℕ String) (device_id minutes : ℕ) (u : User) (db : Database)
      (reading : Option Values) (now : ℕ) (w : Plant)
      → let (reply, w') = bypass acknowledges inventory device_id minutes u db reading now w in
        ((minutes ≤ 1080)
          × ((own : String) × (lookup device_id inventory ≡ some own)
              × (may_access_zone u (of_device device_id own db) ≡ true))
          × Performed device_id (timer minutes) w (reply, w'))
        ⊎ (((e : ℕ) × (reply ≡ refused e)) × (w' ≡ w))
  unfolding bypass
  bypass_lem inventory device_id minutes u db reading now w = elim (Bool-cases (leb minutes 1080)) [
    | inr long ↦ rw (long, bypass) (inr ((_, refl), refl))
    | inl short ↦
        rw (short, bypass)
          (elim (require_device-cases inventory device_id u db) [
            | inr (e, away) ↦ rw (away, bypass) (inr ((e, refl), refl))
            | inl (near, let_through) ↦
                rw (let_through, bypass)
                  (inl (
                    leb→le minutes 1080 short,
                    near,
                    subst
                        (λ cs. Performed device_id cs w (
                          perform acknowledges device_id (bypass_commands minutes)
                            (bypass_cached minutes) reading now w))
                        (bypass_commands-timer minutes)
                        (perform_lem device_id (bypass_commands minutes) (bypass_cached minutes)
                          reading now w),
                  ))
          ])
  ]

  forced :
      (id state : ℕ) (reading : Option Values) (now : ℕ) (w : Plant)
      → let result =
          perform acknowledges id (override_commands state) (override_cached state) reading now w in
        ((some state ≡ some 5) × Performed id handing_back w result)
        ⊎ ((state' : ℕ) × (some state ≡ some state')
            × (state' ≢ 5)
            × Performed id (forcing state') w result)
  forced id state reading now w =
      let result =
        perform acknowledges id (override_commands state) (override_cached state) reading now w in
      let done = perform_lem id (override_commands state) (override_cached state) reading now w in
      elim (Bool-cases (state == 5)) [
        | inl back ↦
            let e : state ≡ 5 = eq_of_beq state 5 back in
            let commands : override_commands state ≡ handing_back = rw back (rw e refl) in
            inl (ap some e, subst (λ cs. Performed id cs w result) commands done)
        | inr other ↦
            let commands : override_commands state ≡ forcing state = rw other refl in
            inr (
              state,
              refl,
              ne_of_beq state 5 other,
              subst (λ cs. Performed id cs w result) commands done,
            )
      ]

  -- An override goes out only for a manager or an administrator, to a device of the inventory, and for
  -- a state that the device knows: the gate is opened before the command, and closed after the command
  -- that hands control back, each only if the write before it was acknowledged; otherwise the reply is
  -- 503, nothing more goes out and the cache stays. In every other case the call is refused and nothing
  -- changes.
  pub override_lem :
      (upper : String → String) (inventory : Dict ℕ String) (device_id : ℕ) (name : String)
      (u : User) (db : Database) (reading : Option Values) (now : ℕ) (w : Plant)
      → let (reply, w') = override acknowledges upper inventory device_id name u db reading now w in
        ((at_least u manager ≡ true)
          × ((own : String) × (lookup device_id inventory ≡ some own))
          × (((occupancy_state (upper name) ≡ some 5)
                × Performed device_id handing_back w (reply, w'))
              ⊎ ((state : ℕ) × (occupancy_state (upper name) ≡ some state)
                  × (state ≢ 5)
                  × Performed device_id (forcing state) w (reply, w'))))
        ⊎ (((e : ℕ) × (reply ≡ refused e)) × (w' ≡ w))
  unfolding override require
  override_lem upper inventory device_id name u db reading now w =
      elim (Bool-cases (at_least u manager)) [
        | inr low ↦ rw (low, override) (inr ((_, refl), refl))
        | inl staff ↦
            rw (staff, override)
              (elim (require_device-cases inventory device_id u db) [
                | inr (e, away) ↦ rw (away, override) (inr ((e, refl), refl))
                | inl ((own, found, near), let_through) ↦
                    rw (let_through, override)
                      (elim (Option-cases (occupancy_state (upper name))) [
                        | inl unknown ↦ rw (unknown, override) (inr ((_, refl), refl))
                        | inr (state, known) ↦
                            rw (known, override)
                              (inl (refl, (own, found), forced device_id state reading now w))
                      ])
              ])
      ]
