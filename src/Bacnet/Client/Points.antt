-- ===== src/Bacnet/Client/Points.antt =====
-- The values that a multiple read leaves for the points.
use building_controls.Prelude.{
  ◌≡◌, refl, sym, ap, ◌∙◌, inl, inr, Bool, true, false, ◌&&◌, not, String, Option, none, some, List,
  [], ◌∷◌, map, arith, if◌then◌else◌, Bool-cases, and-eq-true, Option-cases, ◌==◌, nat_eq,
  string_eq, beq_refl, eq_of_beq, ne_of_beq, beq_of_ne, contains, list_eq, option_eq, pair_eq,
}
use building_controls.Prelude.Dict.{Dict, lookup, insert, lookup-insert}
use building_controls.Value.{Value, Values}
use building_controls.Bacnet.Client.{by_objid, Answer, error, value, gather, read_points}

-- the last value answered for an object, or what there was before
abbrev pub last_value : String → Option Value → List (String × Answer) → Option Value
last_value objid before [] = before
last_value objid before ((o, error) ∷ rest) = last_value objid before rest
last_value objid before ((o, value v) ∷ rest) =
    last_value objid (if o == objid then some v else before) rest

-- no two objects of a table have the same key
abbrev pub one_each : Dict String String → Bool
one_each [] = true
one_each ((o, k) ∷ d) = not (contains (map (λ e. e.1) d) k) && one_each d

key_listed :
    (d : Dict String String) (o k : String)
    → lookup o d ≡ some k
    → contains (map (λ e. e.1) d) k ≡ true
key_listed [] o k h = ground arith
key_listed ((p, j) ∷ d) o k h = elim (Bool-cases (p == o)) [
  | inl here ↦
      let g = rw here at h in
      let same : j ≡ k = ground arith in rw same (ground (arith, beq_refl k))
  | inr there ↦ let listed = key_listed d o k (rw there at h) in ground arith
]

one_object :
    (d : Dict String String) (o p k : String)
    → one_each d ≡ true
    → lookup o d ≡ some k
    → lookup p d ≡ some k
    → o ≡ p
one_object [] o p k one h g = ground arith
one_object ((q, j) ∷ d) o p k one h g =
    let (fresh, rest) = and-eq-true (not (contains (map (λ e. e.1) d) j)) (one_each d) one in
    elim (Bool-cases (q == o)) [
      | inl first ↦ elim (Bool-cases (q == p)) [
        | inl second ↦ sym (eq_of_beq q o first) ∙ eq_of_beq q p second
        | inr later ↦
            let listed = key_listed d p k (rw later at g) in
            let h' = rw first at h in
            let same : j ≡ k = ground arith in
            let twice : contains (map (λ e. e.1) d) j ≡ true = rw same listed in ground arith
      ]
      | inr apart ↦ elim (Bool-cases (q == p)) [
        | inl second ↦
            let listed = key_listed d o k (rw apart at h) in
            let g' = rw second at g in
            let same : j ≡ k = ground arith in
            let twice : contains (map (λ e. e.1) d) j ≡ true = rw same listed in ground arith
        | inr later ↦ one_object d o p k rest (rw apart at h) (rw later at g)
      ]
    ]

module _ (table : Dict String String) (objid key : String) (one : one_each table ≡ true)
    (known : lookup objid table ≡ some key) where
  same_test : (o k : String) → lookup o table ≡ some k → (k == key) ≡ (o == objid)
  same_test o k found = elim (Bool-cases (o == objid)) [
    | inl here ↦
        let e : o ≡ objid = eq_of_beq o objid here in
        let known' : lookup o table ≡ some key = ap (λ x. lookup x table) e ∙ known in
        let same : k ≡ key = ground arith in rw (here, same) (beq_refl key)
    | inr apart ↦ rw apart (
        beq_of_ne k key (λ e.
          ne_of_beq o objid apart (one_object table o objid key one (found ∙ ap some e) known)))
  ]

  gather_lem :
      (values : Values) (result : List (String × Answer))
      → lookup key (gather table values result) ≡ last_value objid (lookup key values) result
  unfolding gather
  gather_lem values [] = refl
  gather_lem values ((o, error) ∷ rest) = elim (Option-cases (lookup o table)) [
    | inl unknown ↦ rw (unknown, gather) (gather_lem values rest)
    | inr (k, found) ↦ rw (found, gather) (gather_lem values rest)
  ]
  gather_lem values ((o, value v) ∷ rest) = elim (Option-cases (lookup o table)) [
    | inl unknown ↦
        let apart : (o == objid) ≡ false = beq_of_ne o objid (λ e.
          let k : lookup o table ≡ some key = ap (λ x. lookup x table) e ∙ known in ground arith) in
        rw (unknown, apart, gather) (gather_lem values rest)
    | inr (k, found) ↦
        rw (found, gather)
          (gather_lem (insert k v values) rest
            ∙ ap (λ b. last_value objid b rest)
                (lookup-insert k key v values
                  ∙ ap (λ (b : Bool). if b then some v else lookup key values)
                      (same_test o k found)))
  ]

-- A multiple read that is answered leaves for each point the last value that came for its object: what
-- comes for other objects, and what comes as an error, does not touch it, and a point for which no
-- value came is not there.
pub read_points_lem :
    (objid key : String) (result : List (String × Answer))
    → lookup objid by_objid ≡ some key
    → (values : Values) × (read_points (some result) ≡ some values)
      × (lookup key values ≡ last_value objid none result)
unfolding read_points by_objid
read_points_lem objid key result known =
    (gather by_objid [] result, refl, gather_lem by_objid objid key refl known [] result)
