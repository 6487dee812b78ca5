-- ===== src/TruPortal/Inventory.antt =====
-- The inventory that the client answers with.
use building_controls.Prelude.{
  ℕ, ◌+◌, ◌≤◌, ◌<◌, ◌≡◌, refl, ap, ◌⊎◌, inl, inr, Bool, true, false, Option, none, some, List, [],
  ◌∷◌, ◌++◌, arith, ltb, ltb→lt, Bool-cases, Option-cases, nat_eq, string_eq, list_eq, option_eq,
  pair_eq,
}
use building_controls.TruPortal.Panel.{
  TruPortal, Inventory, Answers, DoorBlock, OutputBlock, TriggerBlock, Operation, get_access_points,
  get_outputs, get_system_action_maps, read_doors, read_outputs, read_triggers, refresh, cached,
  inventory_of,
}

-- The inventory is what the three answers say, it is kept with its time, and the three reads went out.
abbrev pub Read : Answers → ℕ → TruPortal → Option Inventory × TruPortal → Type 0
Read answers now p (o, p') =
    (ds : List DoorBlock) × (os : List OutputBlock) × (ts : List TriggerBlock) × (answers.doors
      ≡ some ds)
    × (answers.outputs ≡ some os)
    × (answers.triggers ≡ some ts)
    × (o
        ≡ some (record {
          doors = read_doors ds;
          outputs = read_outputs os;
          triggers = read_triggers ts;
        }))
    × (p'.inventory ≡ o)
    × (p'.inventory_at ≡ now)
    × (p'.sent ≡ p.sent ++ get_access_points ∷ get_outputs ∷ get_system_action_maps ∷ [])

-- The first read without an answer is the last one that went out.
abbrev pub StoppedAt : Answers → List Operation → Type 0
StoppedAt answers sent =
    ((answers.doors ≡ none) × (sent ≡ get_access_points ∷ []))
    ⊎ (((ds : List DoorBlock) × (answers.doors ≡ some ds))
        × (answers.outputs ≡ none)
        × (sent ≡ get_access_points ∷ get_outputs ∷ []))
    ⊎ (((ds : List DoorBlock) × (answers.doors ≡ some ds))
        × ((os : List OutputBlock) × (answers.outputs ≡ some os))
        × (answers.triggers ≡ none)
        × (sent ≡ get_access_points ∷ get_outputs ∷ get_system_action_maps ∷ []))

-- The panel was read up to a read that was not answered, and what was kept before stays.
abbrev pub Unread : Answers → TruPortal → Option Inventory × TruPortal → Type 0
Unread answers p (o, p') =
    (o ≡ none)
    × (p'.inventory ≡ p.inventory)
    × (p'.inventory_at ≡ p.inventory_at)
    × ((sent : List Operation) × (p'.sent ≡ p.sent ++ sent) × StoppedAt answers sent)

-- The panel is called only where a refresh is asked for, or what is kept is missing or too old.
abbrev pub IsStale : Bool → ℕ → TruPortal → Type 0
IsStale fresh now p =
    (fresh ≡ true) ⊎ (p.inventory ≡ none) ⊎ (p.inventory_at + p.inventory_ttl ≤ now)

one_by_one :
    (l : List Operation) (a b c : Operation)
    → ((l ++ a ∷ []) ++ b ∷ []) ++ c ∷ [] ≡ l ++ a ∷ b ∷ c ∷ []
one_by_one [] a b c = refl
one_by_one (x ∷ l) a b c = ap (λ t. x ∷ t) (one_by_one l a b c)

two_by_two : (l : List Operation) (a b : Operation) → (l ++ a ∷ []) ++ b ∷ [] ≡ l ++ a ∷ b ∷ []
two_by_two [] a b = refl
two_by_two (x ∷ l) a b = ap (λ t. x ∷ t) (two_by_two l a b)

refresh_lem :
    (answers : Answers) (now : ℕ) (p : TruPortal)
    → Read answers now p (refresh answers now p) ⊎ Unread answers p (refresh answers now p)
unfolding refresh
refresh_lem answers now p = elim (Option-cases answers.doors) [
  | inl lost ↦ rw (lost, refresh) (inr (refl, refl, refl, (_, refl, inl (refl, refl))))
  | inr (ds, doors) ↦ elim (Option-cases answers.outputs) [
    | inl lost ↦
        rw (doors, lost, refresh)
          (inr (refl, refl, refl, (_, two_by_two p.sent _ _, inr (inl ((ds, refl), refl, refl)))))
    | inr (os, outputs) ↦ elim (Option-cases answers.triggers) [
      | inl lost ↦
          rw (doors, outputs, lost, refresh)
            (inr (
              refl,
              refl,
              refl,
              (_, one_by_one p.sent _ _ _, inr (inr ((ds, refl), (os, refl), refl, refl))),
            ))
      | inr (ts, triggers) ↦
          rw (doors, outputs, triggers, refresh)
            (inl (ds, os, ts, refl, refl, refl, refl, refl, refl, one_by_one p.sent _ _ _))
    ]
  ]
]

cached_lem :
    (now : ℕ) (p : TruPortal) (inventory : Inventory)
    → cached now p ≡ some inventory
    → (now < p.inventory_at + p.inventory_ttl) × (p.inventory ≡ some inventory)
cached_lem now p inventory h = elim (Bool-cases (ltb now (p.inventory_at + p.inventory_ttl))) [
  | inl young ↦ (ltb→lt _ _ young, rw young at h)
  | inr old ↦ let g = rw old at h in ground arith
]

uncached :
    (now : ℕ) (p : TruPortal)
    → cached now p ≡ none
    → (p.inventory ≡ none) ⊎ (p.inventory_at + p.inventory_ttl ≤ now)
uncached now p h = elim (Bool-cases (ltb now (p.inventory_at + p.inventory_ttl))) [
  | inl young ↦ inl (rw young at h)
  | inr old ↦ inr (ground arith)
]

-- The inventory comes from memory only where no refresh is asked for and less than its time to live
-- has gone by since it was read, and then the panel is not called. The panel is read only where a
-- refresh is asked for, nothing is kept, or what is kept is too old: if all three reads are answered, the
-- inventory is what they say, it is kept with the time, and exactly the three reads went out, in their
-- order; if one is not, the call raises, the reads went out up to that one, and what was kept stays.
pub inventory_of_lem :
    (fresh : Bool) (answers : Answers) (now : ℕ) (p : TruPortal)
    → let (o, p') = inventory_of fresh answers now p in
      ((fresh ≡ false)
        × ((inventory : Inventory) × (o ≡ some inventory) × (p.inventory ≡ some inventory))
        × (now < p.inventory_at + p.inventory_ttl)
        × (p' ≡ p))
      ⊎ (IsStale fresh now p × (Read answers now p (o, p') ⊎ Unread answers p (o, p')))
unfolding inventory_of
inventory_of_lem true answers now p = inr (inl refl, refresh_lem answers now p)
inventory_of_lem false answers now p = elim (Option-cases (cached now p)) [
  | inl stale ↦
      rw (stale, inventory_of) (inr (inr (uncached now p stale), refresh_lem answers now p))
  | inr (inventory, kept) ↦
      let (young, same) = cached_lem now p inventory kept in
      rw (kept, inventory_of) (inl (refl, (inventory, refl, same), young, refl))
]
