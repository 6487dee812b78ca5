-- ===== src/Schedules/Weeks.antt =====
-- What a validated day is, and that a week survives the way to a device and back.
use building_controls.Prelude.{
  ℕ, suc, ◌≤◌, ◌<◌, ◌≡◌, refl, sym, ap, ◌∙◌, inl, inr, Bool, true, false, Option, none, some, List,
  [], ◌∷◌, arith, ltb, Bool-cases, Option-cases, length, All, ◌==◌, nat_eq, string_eq, beq_refl,
  eq_of_beq, contains, list_eq, option_eq, pair_eq,
}
use building_controls.Prelude.Int.{ℤ, pos, int_eq}
use building_controls.Prelude.Text.{Text}
use building_controls.Prelude.Table.{count}
use building_controls.Prelude.Sort.{
  order_by, insert_by, in_order, leb_text, count-order_by, order_by-in_order,
}
use building_controls.Database.{Transition, Day}
use building_controls.Auth.Password.{Result, ok, raise}
use building_controls.Schedules.{
  Time, Draft, colon, clock, parse_time, parse_parts, first_three, normalise, validate_transitions,
  prepend, entry, is_state, read_time, read_state, split,
}
use building_controls.Schedules.Clock.{parse_time-clock}

-- a transition in the form that the store keeps
pub record IsEntry (t : Transition) : Type 0 where
  pub hour : ℕ
  pub minute : ℕ
  pub hour_bound : hour < 24
  pub minute_bound : minute < 60
  pub written : t.time ≡ clock hour minute
  pub state_known : is_state t.state ≡ true

first_three-bounds :
    (o : Option (List ℤ)) (t : Time) → first_three o ≡ some t → (t.hour < 24) × (t.minute < 60)
first_three-bounds none t h = ground arith
first_three-bounds (some []) t h = ground arith
first_three-bounds (some (pos a ∷ [])) t h = ground arith
first_three-bounds (some (a ∷ [])) t h = ground arith
first_three-bounds (some (pos a ∷ pos b ∷ [])) t h = ground arith
first_three-bounds (some (a ∷ b ∷ [])) t h = ground arith
first_three-bounds (some (pos a ∷ pos b ∷ pos c ∷ rest)) t h = ground arith
first_three-bounds (some (a ∷ b ∷ c ∷ rest)) t h = ground arith

read_time-bounds :
    (o : Option Text) (t : Time) → read_time o ≡ some t → (t.hour < 24) × (t.minute < 60)
unfolding parse_time
read_time-bounds none t h = ground arith
read_time-bounds (some s) t h = first_three-bounds (parse_parts (split colon s)) t h

read_state-known : (o : Option (Result ℤ)) (s : ℤ) → read_state o ≡ some s → is_state s ≡ true
read_state-known none s h = ground arith
read_state-known (some (raise e)) s h = ground arith
read_state-known (some (ok x)) s h = elim (Bool-cases (is_state x)) [
  | inl known ↦ let e : x ≡ s = ground arith in rw (sym e) known
  | inr unknown ↦ ground arith
]

clock-inj :
    (h m h' m' : ℕ)
    → h < 24
    → m < 60
    → h' < 24
    → m' < 60
    → clock h m ≡ clock h' m'
    → (h ≡ h') × (m ≡ m')
clock-inj h m h' m' a b a' b' e =
    let same = sym (parse_time-clock h m a b) ∙ ap parse_time e ∙ parse_time-clock h' m' a' b' in
    (ground (arith, same), ground (arith, same))

at_time : Text → Transition → Bool
at_time x t = t.time == x

record IsNormal (seen : List (ℕ × ℕ)) (drafts : List Draft) (day : Day) : Type 0 where
  entries : All IsEntry day
  same_length : length day ≡ length drafts
  once : (x : Text) → count (at_time x) day ≤ 1
  unseen :
      (h m : ℕ)
      → h < 24
      → m < 60
      → contains seen (h, m) ≡ true
      → count (at_time (clock h m)) day ≡ 0

prepend-cases :
    (t : Transition) (o : Option Day) (day : Day)
    → prepend t o ≡ some day
    → (rest : Day) × (o ≡ some rest) × (t ∷ rest ≡ day)
prepend-cases t none day h = ground arith
prepend-cases t (some rest) day h = (rest, refl, ground arith)

extend-IsNormal :
    (seen : List (ℕ × ℕ)) (d : Draft) (ds : List Draft) (t : Time) (s : ℤ) (rest : Day)
    → t.hour < 24
    → t.minute < 60
    → is_state s ≡ true
    → contains seen (t.hour, t.minute) ≡ false
    → IsNormal ((t.hour, t.minute) ∷ seen) ds rest
    → IsNormal seen (d ∷ ds) (entry t s ∷ rest)
unfolding at_time
extend-IsNormal seen d ds t s rest a b known new r =
    let here = r.unseen t.hour t.minute a b (rw (beq_refl t.hour, beq_refl t.minute) refl) in
    record {
      entries = (
        record {
          hour = t.hour;
          minute = t.minute;
          hour_bound = a;
          minute_bound = b;
          written = refl;
          state_known = known;
        },
        r.entries,
      );
      same_length = ap suc r.same_length;
      once = λ x. elim (Bool-cases (clock t.hour t.minute == x)) [
        | inl same ↦
            let e = eq_of_beq (clock t.hour t.minute) x same in
            let none_left : count (at_time x) rest ≡ 0 =
              ap (λ y. count (at_time y) rest) (sym e) ∙ here in
            rw (same, count) (ground (arith, none_left))
        | inr apart ↦ rw (apart, count) (r.once x)
      ];
      unseen = λ h m a' b' old. elim (Bool-cases (clock t.hour t.minute == clock h m)) [
        | inl same ↦
            let e = eq_of_beq (clock t.hour t.minute) (clock h m) same in
            let (eh, em) = clock-inj t.hour t.minute h m a b a' b' e in
            ground (arith, eh, em, old, new)
        | inr apart ↦ rw (apart, count) (r.unseen h m a' b' (rw old (ground arith)))
      ];
    }

normalise-IsNormal :
    (seen : List (ℕ × ℕ)) (drafts : List Draft) (day : Day)
    → normalise seen drafts ≡ some day
    → IsNormal seen drafts day
unfolding normalise
normalise-IsNormal seen [] day h =
    let e : [] ≡ day = ground arith in
    rw (sym e) (record {
      entries = tt;
      same_length = refl;
      once = λ x. omega arith;
      unseen = λ h m a b c. refl;
    })
normalise-IsNormal seen (d ∷ ds) day h = elim (Option-cases (read_time d.time)) [
  | inl unread ↦ let g = rw (unread, normalise) at h in ground arith
  | inr (t, read) ↦
      let g = rw (read, normalise) at h in
      let (a, b) = read_time-bounds d.time t read in
      elim (Bool-cases (contains seen (t.hour, t.minute))) [
        | inl old ↦ let g' = rw old at g in ground arith
        | inr new ↦
            let g' = rw new at g in
            elim (Option-cases (read_state d.state)) [
              | inl bad ↦ let g'' = rw bad at g' in ground arith
              | inr (s, good) ↦
                  let g'' = rw good at g' in
                  let seen' = (t.hour, t.minute) ∷ seen in
                  let (rest, normal, e) = prepend-cases (entry t s) (normalise seen' ds) day g'' in
                  rw (sym e) (
                    extend-IsNormal seen d ds t s rest a b (read_state-known d.state s good) new
                      (normalise-IsNormal seen' ds rest normal))
            ]
      ]
]

All-insert_by :
    (t : Transition) (day : Day)
    → IsEntry t
    → All IsEntry day
    → All IsEntry (insert_by (λ x. x.time) t day)
unfolding insert_by
All-insert_by t [] a b = (a, tt)
All-insert_by t (x ∷ day) a b = elim (Bool-cases (leb_text t.time x.time)) [
  | inl le ↦ rw (le, All) (a, b)
  | inr gt ↦ rw (gt, All) (b.0, All-insert_by t day a b.1)
]

All-order_by : (day : Day) → All IsEntry day → All IsEntry (order_by (λ x. x.time) day)
unfolding order_by
All-order_by [] a = tt
All-order_by (t ∷ day) (a, b) = All-insert_by t (order_by (λ x. x.time) day) a (All-order_by day b)

count-all : (day : Day) → count (λ t. true) day ≡ length day
count-all [] = refl
count-all (t ∷ day) = ground (arith, count-all day)

-- What `validate_transitions` returns is a day of one to eight transitions, as many as came in, in the
-- order of their times, each at a time of day written "HH:MM" and with a known state, and no two at the
-- same time.
pub validate_transitions_lem :
    (drafts : List Draft) (day : Day)
    → validate_transitions drafts ≡ some day
    → All IsEntry day
      × (in_order (λ t. t.time) day ≡ true)
      × (length day ≡ length drafts)
      × (1 ≤ length day)
      × (length day ≤ 8)
      × ((x : Text) → count (λ t. t.time == x) day ≤ 1)
unfolding validate_transitions at_time
validate_transitions_lem [] day h = ground arith
validate_transitions_lem (d ∷ ds) day h = elim (Option-cases (normalise [] (d ∷ ds))) [
  | inl bad ↦ let g = rw bad at h in ground arith
  | inr (raw, good) ↦
      let r = normalise-IsNormal [] (d ∷ ds) raw good in
      let g = rw good at h in
      elim (Bool-cases (ltb 8 (length raw))) [
        | inl long ↦ let g' = rw long at g in ground arith
        | inr short ↦
            let g' = rw short at g in
            let key = λ (t : Transition). t.time in
            let e : order_by key raw ≡ day = ground arith in
            let size : length (order_by key raw) ≡ length raw =
              sym (count-all (order_by key raw))
              ∙ count-order_by key (λ t. true) raw
              ∙ count-all raw in
            rw (sym e) (
              All-order_by raw r.entries,
              order_by-in_order key raw,
              size ∙ r.same_length,
              ground (arith, size, r.same_length),
              ground (arith, size, short),
              λ x. rw (count-order_by key (λ t. t.time == x) raw) (r.once x),
            )
      ]
]
