-- ===== src/Zones/Grants.antt =====
-- What `set` and `validate_grant` let through.
use building_controls.Prelude.{
  ℕ, ◌≡◌, refl, sym, ap, ◌∙◌, ◌≢◌, ◌⊎◌, inl, inr, Bool, true, false, ◌&&◌, not, String, Option,
  none, some, List, [], ◌∷◌, map, arith, eq_iff, if◌then◌else◌, Bool-cases, Option-cases, ◌==◌,
  nat_eq, string_eq, beq_refl, eq_of_beq, contains, list_eq, option_eq, pair_eq,
}
use building_controls.Prelude.Text.{codes, strip_str}
use building_controls.Prelude.Sort.{order_by, insert_by, leb_text}
use building_controls.Prelude.Table.{fetch_one, fetch_one-upsert_self, fetch_one-upsert-apart}
use building_controls.Database.{Database, DeviceZone}
use building_controls.Store.Intent.{device_zone, set_device_zone}
use building_controls.Zones.{
  Zones, override_or, configured, of_id, valid_name, set, dedupe, sorted_set, known, sort_out,
  answer, validate_grant,
}

contains-insert_by :
    (a r : String) (t : List String) → contains (insert_by codes r t) a ≡ contains (r ∷ t) a
unfolding insert_by
contains-insert_by a r [] = refl
contains-insert_by a r (x ∷ t) = elim (Bool-cases (leb_text (codes r) (codes x))) [
  | inl le ↦ rw (le, contains) refl
  | inr gt ↦ rw (gt, contains) (ground (arith, contains-insert_by a r t))
]

contains-order_by : (a : String) (t : List String) → contains (order_by codes t) a ≡ contains t a
unfolding order_by
contains-order_by a [] = refl
contains-order_by a (r ∷ t) =
    contains-insert_by a r (order_by codes t) ∙ ground (arith, contains-order_by a t)

contains-dedupe : (a : String) (t : List String) → contains (dedupe t) a ≡ contains t a
contains-dedupe a [] = refl
contains-dedupe a (x ∷ t) = elim (Bool-cases (contains t x)) [
  | inr new ↦ rw (new, dedupe) (ground (arith, contains-dedupe a t))
  | inl old ↦
      rw (old, dedupe)
        (contains-dedupe a t ∙ elim (Bool-cases (x == a)) [
          | inr apart ↦ rw apart refl
          | inl same ↦ let e = eq_of_beq x a same in rw same (rw (sym e) old)
        ])
]

contains-sorted_set : (a : String) (t : List String) → contains (sorted_set t) a ≡ contains t a
unfolding sorted_set
contains-sorted_set a t = contains-order_by a (dedupe t) ∙ contains-dedupe a t

stripped : List String → List String
stripped zs = map strip_str zs

asked_for : List String → String → Bool
asked_for zs a = not (a == "") && contains (stripped zs) a

sorts :
    (kn zs : List String) (a : String)
    → (contains (sort_out kn zs).0 a ≡ (contains kn a && asked_for zs a))
      × (contains (sort_out kn zs).1 a ≡ (not (contains kn a) && asked_for zs a))
unfolding sort_out asked_for stripped
sorts kn [] a = ground arith
sorts kn (z ∷ zs) a =
    let ih = sorts kn zs a in
    elim (Bool-cases (strip_str z == a)) [
      | inr apart ↦ elim (Bool-cases (strip_str z == "")) [
        | inl blank ↦ rw (blank, sort_out) (rw (apart, map) ih)
        | inr named ↦ elim (Bool-cases (contains kn (strip_str z))) [
          | inl old ↦ rw (named, sort_out) (rw (old, sort_out) (rw (apart, map) ih))
          | inr new ↦ rw (named, sort_out) (rw (new, sort_out) (rw (apart, map) ih))
        ]
      ]
      | inl same ↦
          let e = eq_of_beq (strip_str z) a same in
          elim (Bool-cases (strip_str z == "")) [
            | inl blank ↦ rw (blank, sort_out) (ground (arith, ih, blank, e))
            | inr named ↦ elim (Bool-cases (contains kn (strip_str z))) [
              | inl old ↦
                  rw (named, sort_out)
                    (rw (old, sort_out) (ground (arith, ih, named, e, old, same)))
              | inr new ↦
                  rw (named, sort_out)
                    (rw (new, sort_out) (ground (arith, ih, named, e, new, same)))
            ]
          ]
    ]

-- A request is granted as a whole or not at all. When it is granted, the zones granted are exactly
-- those asked for, without blanks and the white space around a name, and the building knows each of
-- them; it is refused only over a zone that was asked for and that the building does not know.
pub validate_grant_lem :
    (requested : List String) (zs : Zones) (db : Database)
    → ((grants : List String) × (validate_grant requested zs db ≡ some grants)
        × ((zone : String)
            → (contains grants zone ≡ (not (zone == "") && contains (map strip_str requested) zone))
              × (contains grants zone ≡ (contains (known zs db) zone && contains grants zone))))
      ⊎ ((validate_grant requested zs db ≡ none)
          × ((zone : String) × (zone ≢ "")
              × (contains (map strip_str requested) zone ≡ true)
              × (contains (known zs db) zone ≡ false)))
unfolding validate_grant answer asked_for stripped
validate_grant_lem requested zs db =
    by_outcome (sort_out (known zs db) requested) (sorts (known zs db) requested)
  where
    refused :
        (u : String) (us : List String) (a : Bool) (b : Bool)
        → contains (u ∷ us) u ≡ (not a && (not (u == "") && b))
        → (u ≢ "") × (b ≡ true) × (a ≡ false)
    refused u us a b h =
        let self = beq_refl u in
        ((λ e. ground (arith, eq_iff u "", self)), ground (arith, self), ground (arith, self))

    by_outcome :
        (o : List String × List String)
        → ((a : String)
            → (contains o.0 a ≡ (contains (known zs db) a && asked_for requested a))
              × (contains o.1 a ≡ (not (contains (known zs db) a) && asked_for requested a)))
        → ((grants : List String) × (answer o ≡ some grants)
            × ((zone : String)
                → (contains grants zone
                    ≡ (not (zone == "") && contains (map strip_str requested) zone))
                  × (contains grants zone ≡ (contains (known zs db) zone && contains grants zone))))
          ⊎ ((answer o ≡ none)
              × ((zone : String) × (zone ≢ "")
                  × (contains (map strip_str requested) zone ≡ true)
                  × (contains (known zs db) zone ≡ false)))
    by_outcome (cleaned, []) h = inl (
      sorted_set cleaned,
      refl,
      λ zone. (
        ground (arith, contains-sorted_set zone cleaned, h zone),
        ground (arith, contains-sorted_set zone cleaned, h zone),
      ),
    )
    by_outcome (cleaned, u ∷ us) h =
        let (named, asked, new) =
          refused u us (contains (known zs db) u) (contains (map strip_str requested) u) (h u).1 in
        inr (refl, (u, named, asked, new))

zone_of : Option DeviceZone → Option String
zone_of none = none
zone_of (some r) = some r.zone

device_zone-zone_of :
    (d : ℕ) (db : Database)
    → device_zone d db ≡ zone_of (fetch_one (λ r. r.device_id == d) db.device_zone)
unfolding device_zone zone_of
device_zone-zone_of d db = elim (Option-cases (fetch_one (λ r. r.device_id == d) db.device_zone)) [
  | inl absent ↦ rw (absent, device_zone) refl
  | inr (r, found) ↦ rw (found, device_zone) refl
]

device_zone-set :
    (d other : ℕ) (z actor : String) (db : Database)
    → device_zone other (set_device_zone d z actor db)
      ≡ (if d == other then some z else device_zone other db)
unfolding set_device_zone zone_of
device_zone-set d other z actor db =
    let t = db.device_zone in
    let p = λ (k : ℕ) (r : DeviceZone). r.device_id == k in
    let f = λ (r : DeviceZone). record r { zone = z } in
    let new : DeviceZone = record { device_id = d; zone = z } in
    device_zone-zone_of other (set_device_zone d z actor db) ∙ elim (Bool-cases (d == other)) [
      | inl same ↦
          let e = eq_of_beq d other same in
          rw same (
            rw (sym e) (elim (fetch_one-upsert_self (p d) f new t (λ r h. h) (beq_refl d)) [
              | inl (r, moved) ↦ ap zone_of moved
              | inr added ↦ ap zone_of added
            ]))
      | inr apart ↦
          let other_row : (r : DeviceZone) → p d r ≡ true → p other r ≡ false =
            λ r h. let e = eq_of_beq r.device_id d h in rw e apart in
          rw apart (
            ap zone_of (fetch_one-upsert-apart (p other) (p d) f new t other_row other_row apart)
            ∙ sym (device_zone-zone_of other db))
    ]

-- `set` accepts a name exactly when it is valid and not blank once the white space around it is gone.
-- Then every lookup of that device's zone answers with the stripped name, whatever it was configured
-- with, and every other device keeps its zone.
pub of_id-set :
    (device_id other : ℕ) (zone actor : String) (zs : Zones) (db : Database)
    → ((db' : Database) × (set device_id zone actor db ≡ some db')
        × (valid_name (codes (strip_str zone)) ≡ true)
        × (of_id other zs db' ≡ (if device_id == other then strip_str zone else of_id other zs db)))
      ⊎ ((set device_id zone actor db ≡ none) × (valid_name (codes (strip_str zone)) ≡ false))
unfolding set of_id valid_name
of_id-set device_id other zone actor zs db =
    let z = strip_str zone in
    elim (Bool-cases (z == "")) [
      | inl blank ↦
          let e = eq_of_beq z "" blank in
          rw (blank, set) (inr (refl, ap (λ x. valid_name (codes x)) e))
      | inr named ↦ elim (Bool-cases (valid_name (codes z))) [
        | inr invalid ↦ rw (named, set) (rw (invalid, set) (inr (refl, refl)))
        | inl valid ↦
            rw (named, set)
              (rw (valid, set)
                (inl (
                  set_device_zone device_id z actor db,
                  refl,
                  refl,
                  ap (override_or (configured other zs))
                        (device_zone-set device_id other z actor db)
                      ∙ elim (Bool-cases (device_id == other)) [
                        | inl same ↦ rw same (rw named refl)
                        | inr apart ↦ rw apart refl
                      ],
                )))
      ]
    ]
