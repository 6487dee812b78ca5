-- ===== src/Prelude/Sort.antt =====
-- `ORDER BY`: a stable sort by insertion.
use Prim.Native.Nat.{ℕ}
use mathlib.Core.Path.{◌≡◌, refl, ◌∙◌}
use mathlib.Core.Bool.{Bool, true, false, ◌&&◌}
use mathlib.Core.Logic.{inl, inr}
use mathlib.Core.List.{List, [], ◌∷◌}
use native.Mathlib.Omega.{arith}
use building_controls.Prelude.Tests.{ltb, nat_beq, if◌then◌else◌, Bool-cases}
use building_controls.Prelude.Table.{count}

-- the order of texts by their code points, and of rows by a list of columns
abbrev pub leb_text : List ℕ → List ℕ → Bool
leb_text [] t = true
leb_text (c ∷ s) [] = false
leb_text (c ∷ s) (d ∷ t) = if ltb c d then true else nat_beq c d && leb_text s t

module _ {ℓ} {R : Type ℓ} (key : R → List ℕ) where
  unfoldable pub insert_by : R → List R → List R
  insert_by r [] = r ∷ []
  insert_by r (x ∷ t) = elim (leb_text (key r) (key x)) [
    | true ↦ r ∷ x ∷ t
    | false ↦ x ∷ insert_by r t
  ]

  unfoldable pub order_by : List R → List R
  unfolding insert_by
  order_by [] = []
  order_by (r ∷ t) = insert_by r (order_by t)

  abbrev pub first_le : List ℕ → List R → Bool
  first_le k [] = true
  first_le k (x ∷ t) = leb_text k (key x)

  -- each row is at most the one after it
  abbrev pub in_order : List R → Bool
  in_order [] = true
  in_order (x ∷ t) = first_le (key x) t && in_order t

  count-insert_by : (p : R → Bool) (r : R) (t : List R) → count p (insert_by r t) ≡ count p (r ∷ t)
  unfolding insert_by
  count-insert_by p r [] = refl
  count-insert_by p r (x ∷ t) = elim (Bool-cases (leb_text (key r) (key x))) [
    | inl le ↦ rw (le, count) refl
    | inr gt ↦ rw (gt, count) (ground (arith, count-insert_by p r t))
  ]

  -- Sorting keeps every row as often as it was.
  pub count-order_by : (p : R → Bool) (t : List R) → count p (order_by t) ≡ count p t
  unfolding order_by
  count-order_by p [] = refl
  count-order_by p (r ∷ t) = count-insert_by p r (order_by t) ∙ ground (arith, count-order_by p t)

pub leb_text_total : (s t : List ℕ) → leb_text s t ≡ false → leb_text t s ≡ true
leb_text_total [] t h = ground arith
leb_text_total (c ∷ s) [] h = refl
leb_text_total (c ∷ s) (d ∷ t) h = ground (arith, leb_text_total s t)

module _ {ℓ} {R : Type ℓ} (key : R → List ℕ) where
  insert_by-in_order :
      (r : R) (t : List R) → in_order key t ≡ true → in_order key (insert_by key r t) ≡ true
  unfolding insert_by
  insert_by-in_order r [] h = refl
  insert_by-in_order r (x ∷ t) h = elim (Bool-cases (leb_text (key r) (key x))) [
    | inl le ↦ rw (le, in_order) (ground arith)
    | inr gt ↦
        let below = leb_text_total (key r) (key x) gt in
        rw (gt, in_order)
          (rw (first_below (key x) r t below (ground arith), insert_by-in_order r t (ground arith))
            refl)
  ]
    where
      first_below :
          (k : List ℕ) (r : R) (t : List R)
          → leb_text k (key r) ≡ true
          → first_le key k t ≡ true
          → first_le key k (insert_by key r t) ≡ true
      first_below k r [] a b = a
      first_below k r (y ∷ u) a b = elim (Bool-cases (leb_text (key r) (key y))) [
        | inl le ↦ rw (le, first_le) a
        | inr gt ↦ rw (gt, first_le) b
      ]

  pub order_by-in_order : (t : List R) → in_order key (order_by key t) ≡ true
  unfolding order_by
  order_by-in_order [] = refl
  order_by-in_order (r ∷ t) = insert_by-in_order r (order_by key t) (order_by-in_order t)
