-- ===== src/TruPortal/Panel.antt =====
-- What the client keeps of the panel, and its calls (bms/truportal.py `TruPortal`). An answer of the
-- panel is a parameter: the calls go out in a list, and a call raises a `TruPortalError`, here `none`,
-- or gives what the patterns of `re` find in each block of the text.
use building_controls.Prelude.{
  ℕ, ◌+◌, max, Bool, true, false, not, String, Option, none, some, List, [], ◌∷◌, ◌++◌, map, ltb,
  if◌then◌else◌, ◌==◌, nat_eq, string_eq, list_eq, option_eq, pair_eq,
}
use building_controls.Prelude.Text.{Text}
use building_controls.TruPortal.Durations.{parse_timespan}

pub record Door : Type 0 where
  pub id : ℕ
  pub name : String
  pub grant_seconds : ℕ

pub record Output : Type 0 where
  pub id : ℕ
  pub name : String
  pub enabled : Bool

pub record Trigger : Type 0 where
  pub id : ℕ
  pub name : String
  pub enabled : Bool
  pub duration_seconds : Option ℕ
  pub outputs : List ℕ
  pub self_firing : Bool

-- what is found in the block of a door, of an output and of an action map
pub record DoorBlock : Type 0 where
  pub dev_id : Option ℕ
  pub name : Option String
  pub grant : Option ℕ

pub record OutputBlock : Type 0 where
  pub dev_id : Option ℕ
  pub name : Option String
  pub disabled : Option String

pub record TriggerBlock : Type 0 where
  pub tid : Option ℕ
  pub name : Option String
  pub enabled : Option String
  pub spans : List Text
  pub pulses : List ℕ
  pub query_type : Bool

abbrev five_or : Option ℕ → ℕ
five_or none = 5
five_or (some n) = n

abbrev is_text : String → Option String → Bool
is_text s none = false
is_text s (some t) = t == s

unfoldable pub read_doors : List DoorBlock → List Door
read_doors [] = []
read_doors (blk ∷ blks) = elim blk.dev_id [
  | none ↦ read_doors blks
  | some id ↦ elim blk.name [
    | none ↦ read_doors blks
    | some name ↦
        record { id = id; name = name; grant_seconds = five_or blk.grant } ∷ read_doors blks
  ]
]

unfoldable pub read_outputs : List OutputBlock → List Output
read_outputs [] = []
read_outputs (blk ∷ blks) = elim blk.dev_id [
  | none ↦ read_outputs blks
  | some id ↦ elim blk.name [
    | none ↦ read_outputs blks
    | some name ↦
        record { id = id; name = name; enabled = not (is_text "1" blk.disabled) }
        ∷ read_outputs blks
  ]
]

abbrev larger : ℕ → Option ℕ → Option ℕ
larger n none = some n
larger n (some m) = some (max n m)

-- `max((s for s in spans if s), default=None)`
unfoldable pub longest : List (Option ℕ) → Option ℕ
longest [] = none
longest (none ∷ spans) = longest spans
longest (some s ∷ spans) = let rest = longest spans in if s == 0 then rest else larger s rest

unfoldable pub read_triggers : List TriggerBlock → List Trigger
unfolding longest parse_timespan
read_triggers [] = []
read_triggers (blk ∷ blks) = elim blk.tid [
  | none ↦ read_triggers blks
  | some tid ↦ elim blk.name [
    | none ↦ read_triggers blks
    | some name ↦
        record {
          id = tid;
          name = name;
          enabled = is_text "true" blk.enabled;
          duration_seconds = longest (map parse_timespan blk.spans);
          outputs = blk.pulses;
          self_firing = blk.query_type;
        }
        ∷ read_triggers blks
  ]
]

pub record Inventory : Type 0 where
  pub doors : List Door
  pub outputs : List Output
  pub triggers : List Trigger

pub data Operation : Type 0 where
  get_access_points get_outputs get_system_action_maps : Operation
  door_grant_access execute_system_action_map : ℕ → Operation

-- the client, with the operations it has sent
pub record TruPortal : Type 0 where
  pub inventory_ttl : ℕ
  pub inventory : Option Inventory
  pub inventory_at : ℕ
  pub sent : List Operation

-- the answers to the three reads
pub record Answers : Type 0 where
  pub doors : Option (List DoorBlock)
  pub outputs : Option (List OutputBlock)
  pub triggers : Option (List TriggerBlock)

-- `_call`, which raises without an answer
abbrev pub call {ℓ} : {A : Type ℓ} → Operation → Option A → TruPortal → Option A × TruPortal
call op answer p = (answer, record p { sent = p.sent ++ op ∷ [] })

-- the three reads, one after the other, and the new inventory if all of them were answered
unfoldable pub refresh : Answers → ℕ → TruPortal → Option Inventory × TruPortal
unfolding read_doors read_outputs read_triggers
refresh answers now p =
    let (doors, p1) = call get_access_points answers.doors p in
    elim doors [
      | none ↦ (none, p1)
      | some ds ↦
          let (outputs, p2) = call get_outputs answers.outputs p1 in
          elim outputs [
            | none ↦ (none, p2)
            | some os ↦
                let (triggers, p3) = call get_system_action_maps answers.triggers p2 in
                elim triggers [
                  | none ↦ (none, p3)
                  | some ts ↦
                      let inventory : Inventory = record {
                        doors = read_doors ds;
                        outputs = read_outputs os;
                        triggers = read_triggers ts;
                      } in
                      (some inventory, record p3 { inventory = some inventory; inventory_at = now })
                ]
          ]
    ]

-- an inventory that was read less than its time to live ago
abbrev pub cached : ℕ → TruPortal → Option Inventory
cached now p = if ltb now (p.inventory_at + p.inventory_ttl) then p.inventory else none

-- `inventory(refresh)`, with the answers that the reads would get
unfoldable pub inventory_of : Bool → Answers → ℕ → TruPortal → Option Inventory × TruPortal
unfolding refresh
inventory_of true answers now p = refresh answers now p
inventory_of false answers now p = elim (cached now p) [
  | some inventory ↦ (some inventory, p)
  | none ↦ refresh answers now p
]

-- `grant_access` and `execute_trigger`: whether the panel answered, beside the client after it
abbrev pub grant_access : ℕ → Option (Unit {0}) → TruPortal → Option (Unit {0}) × TruPortal
grant_access door_id = call (door_grant_access door_id)

abbrev pub execute_trigger : ℕ → Option (Unit {0}) → TruPortal → Option (Unit {0}) × TruPortal
execute_trigger trigger_id = call (execute_system_action_map trigger_id)
