-- ===== src/Prelude/Table.antt =====
-- A SQL table as the list of its rows, in the order of their insertion.
use Prim.Native.Nat.{ℕ, suc}
use mathlib.Core.Path.{◌≡◌, refl, sym, ap, ◌∙◌}
use mathlib.Core.Bool.{Bool, true, false}
use mathlib.Core.Logic.{◌⊎◌, inl, inr}
use mathlib.Core.Option.{Option, none, some}
use mathlib.Core.List.{Mem, mem-cons_self, mem-cons_of_mem, List, [], ◌∷◌, ◌++◌}
use native.Mathlib.Omega.{arith}
use building_controls.Prelude.Tests.{ltb, if◌then◌else◌, Bool-cases, is_some}
use building_controls.Prelude.Lists.{All}

module _ {ℓ} {R : Type ℓ} where
  -- `SELECT * FROM t WHERE p`
  abbrev pub select : (R → Bool) → List R → List R
  select p [] = []
  select p (r ∷ t) = if p r then r ∷ select p t else select p t

  -- `SELECT ... WHERE p`, then `fetchone()`
  abbrev pub fetch_one : (R → Bool) → List R → Option R
  fetch_one p [] = none
  fetch_one p (r ∷ t) = if p r then some r else fetch_one p t

  -- `DELETE FROM t WHERE p`
  abbrev pub delete : (R → Bool) → List R → List R
  delete p [] = []
  delete p (r ∷ t) = if p r then delete p t else r ∷ delete p t

  -- `UPDATE t SET ... WHERE p`
  abbrev pub update : (R → Bool) → (R → R) → List R → List R
  update p f [] = []
  update p f (r ∷ t) = (if p r then f r else r) ∷ update p f t

  -- `cur.rowcount` of a statement with this condition
  abbrev pub count : (R → Bool) → List R → ℕ
  count p [] = 0
  count p (r ∷ t) = if p r then suc (count p t) else count p t

  abbrev pub exists : (R → Bool) → List R → Bool
  exists p t = is_some (fetch_one p t)

  pub fetch_one-holds : (p : R → Bool) (t : List R) (r : R) → fetch_one p t ≡ some r → p r ≡ true
  fetch_one-holds p [] r h = ground arith
  fetch_one-holds p (x ∷ t) r h = ground (arith, fetch_one-holds p t r)

  pub fetch_one-Mem : (p : R → Bool) (t : List R) (r : R) → fetch_one p t ≡ some r → Mem r t
  fetch_one-Mem p [] r h = ground arith
  fetch_one-Mem p (x ∷ t) r h = elim (Bool-cases (p x)) [
    | inl yes_ ↦ let e : x ≡ r = ground arith in rw (← e) mem-cons_self
    | inr no_ ↦ mem-cons_of_mem x (fetch_one-Mem p t r (ground arith))
  ]

  pub fetch_one-All {κ} :
      (P : R → Type κ) (p : R → Bool) (t : List R) (r : R) → All P t → fetch_one p t ≡ some r → P r
  fetch_one-All P p [] r a h = ground arith
  fetch_one-All P p (x ∷ t) r a h = elim (Bool-cases (p x)) [
    | inl yes_ ↦ let e : x ≡ r = ground arith in rw (← e) a.0
    | inr no_ ↦ fetch_one-All P p t r a.1 (ground arith)
  ]

  -- Rows that a delete's condition covers are not found after it.
  pub fetch_one-delete_covered :
      (q p : R → Bool) (t : List R)
      → ((r : R) → q r ≡ true → p r ≡ true)
      → fetch_one q (delete p t) ≡ none
  fetch_one-delete_covered q p [] h = refl
  fetch_one-delete_covered q p (r ∷ t) h = ground (arith, h r, fetch_one-delete_covered q p t h)

  -- A delete whose condition excludes the rows looked for does not change what is found.
  pub fetch_one-delete_apart :
      (q p : R → Bool) (t : List R)
      → ((r : R) → q r ≡ true → p r ≡ false)
      → fetch_one q (delete p t) ≡ fetch_one q t
  fetch_one-delete_apart q p [] h = refl
  fetch_one-delete_apart q p (r ∷ t) h = ground (arith, h r, fetch_one-delete_apart q p t h)

  pub fetch_one-append :
      (q : R → Bool) (t u : List R)
      → fetch_one q (t ++ u) ≡ (if exists q t then fetch_one q t else fetch_one q u)
  fetch_one-append q [] u = refl
  fetch_one-append q (r ∷ t) u = ground (arith, fetch_one-append q t u)

  -- An update that keeps the condition looked for changes the row found and nothing else.
  pub fetch_one-update-none :
      (q p : R → Bool) (f : R → R) (t : List R)
      → ((r : R) → q (f r) ≡ q r)
      → fetch_one q t ≡ none
      → fetch_one q (update p f t) ≡ none
  fetch_one-update-none q p f [] h e = refl
  fetch_one-update-none q p f (r ∷ t) h e = ground (arith, h r, fetch_one-update-none q p f t h)

  pub fetch_one-update :
      (q p : R → Bool) (f : R → R) (t : List R) (r : R)
      → ((x : R) → q (f x) ≡ q x)
      → fetch_one q t ≡ some r
      → fetch_one q (update p f t) ≡ some (if p r then f r else r)
  fetch_one-update q p f [] r h e = ground arith
  fetch_one-update q p f (x ∷ t) r h e = ground (arith, h x, fetch_one-update q p f t r h)

  pub count-pos_iff : (p : R → Bool) (t : List R) → count p t ≡ 0 → fetch_one p t ≡ none
  count-pos_iff p [] h = refl
  count-pos_iff p (r ∷ t) h = ground (arith, count-pos_iff p t)

  pub delete-All {κ} : (P : R → Type κ) (p : R → Bool) (t : List R) → All P t → All P (delete p t)
  delete-All P p [] a = tt
  delete-All P p (r ∷ t) a = elim (Bool-cases (p r)) [
    | inl yes_ ↦ rw yes_ (delete-All P p t a.1)
    | inr no_ ↦ rw no_ (a.0, delete-All P p t a.1)
  ]

  -- `INSERT ... ON CONFLICT (...) DO UPDATE SET ...`, where `p` is the conflict
  abbrev pub upsert : (R → Bool) → (R → R) → R → List R → List R
  upsert p f new t = if exists p t then update p f t else t ++ new ∷ []

  pub select-append : (q : R → Bool) (t u : List R) → select q (t ++ u) ≡ select q t ++ select q u
  select-append q [] u = refl
  select-append q (r ∷ t) u = ground (arith, select-append q t u)

  pub select-update-apart :
      (q p : R → Bool) (f : R → R) (t : List R)
      → ((r : R) → p r ≡ true → q r ≡ false)
      → ((r : R) → p r ≡ true → q (f r) ≡ false)
      → select q (update p f t) ≡ select q t
  select-update-apart q p f [] a b = refl
  select-update-apart q p f (r ∷ t) a b = ground (arith, a r, b r, select-update-apart q p f t a b)

  append_none : (t : List R) → t ++ [] ≡ t
  append_none [] = refl
  append_none (r ∷ t) = ground (arith, append_none t)

  -- What a query does not read, an upsert does not change for it.
  pub select-upsert-apart :
      (q p : R → Bool) (f : R → R) (new : R) (t : List R)
      → ((r : R) → p r ≡ true → q r ≡ false)
      → ((r : R) → p r ≡ true → q (f r) ≡ false)
      → q new ≡ false
      → select q (upsert p f new t) ≡ select q t
  select-upsert-apart q p f new t a b c = elim (Bool-cases (exists p t)) [
    | inl old ↦ rw old (select-update-apart q p f t a b)
    | inr fresh ↦ rw fresh (select-append q t (new ∷ []) ∙ rw c (append_none (select q t)))
  ]

  fetch_one-update_self :
      (p : R → Bool) (f : R → R) (t : List R)
      → ((r : R) → p r ≡ true → p (f r) ≡ true)
      → exists p t ≡ true
      → (r : R) × (fetch_one p t ≡ some r) × (fetch_one p (update p f t) ≡ some (f r))
  fetch_one-update_self p f [] k h = ground arith
  fetch_one-update_self p f (x ∷ t) k h = elim (Bool-cases (p x)) [
    | inl here ↦ (x, rw here refl, rw here (rw (k x here) refl))
    | inr apart ↦
        let (r, found, moved) = fetch_one-update_self p f t k (rw apart at h) in
        (r, rw apart found, rw apart (rw apart moved))
  ]

  -- The row of the conflict, after an upsert: the new one, or the old one updated.
  pub fetch_one-upsert_self :
      (p : R → Bool) (f : R → R) (new : R) (t : List R)
      → ((r : R) → p r ≡ true → p (f r) ≡ true)
      → p new ≡ true
      → ((r : R) × (fetch_one p (upsert p f new t) ≡ some (f r)))
        ⊎ (fetch_one p (upsert p f new t) ≡ some new)
  fetch_one-upsert_self p f new t k h = elim (Bool-cases (exists p t)) [
    | inl old ↦ let (r, _, moved) = fetch_one-update_self p f t k old in rw old (inl (r, moved))
    | inr fresh ↦ rw fresh (inr (last_one t fresh))
  ]
    where
      last_one : (u : List R) → exists p u ≡ false → fetch_one p (u ++ new ∷ []) ≡ some new
      last_one [] e = rw h refl
      last_one (x ∷ u) e = ground (arith, last_one u)

  abbrev pub head? : List R → Option R
  head? [] = none
  head? (r ∷ t) = some r

  pub fetch_one-head : (q : R → Bool) (t : List R) → fetch_one q t ≡ head? (select q t)
  fetch_one-head q [] = refl
  fetch_one-head q (r ∷ t) = ground (arith, fetch_one-head q t)

  pub fetch_one-upsert-apart :
      (q p : R → Bool) (f : R → R) (new : R) (t : List R)
      → ((r : R) → p r ≡ true → q r ≡ false)
      → ((r : R) → p r ≡ true → q (f r) ≡ false)
      → q new ≡ false
      → fetch_one q (upsert p f new t) ≡ fetch_one q t
  fetch_one-upsert-apart q p f new t a b c =
      fetch_one-head q (upsert p f new t)
      ∙ ap head? (select-upsert-apart q p f new t a b c)
      ∙ sym (fetch_one-head q t)

  -- A statement that finds no row leaves the table as it was.
  pub delete-count_zero : (p : R → Bool) (t : List R) → ltb 0 (count p t) ≡ false → delete p t ≡ t
  delete-count_zero p [] h = refl
  delete-count_zero p (x ∷ t) h = elim (Bool-cases (p x)) [
    | inl yes_ ↦ let g = rw yes_ at h in ground arith
    | inr no_ ↦ let g = rw no_ at h in rw no_ (ap (λ l. x ∷ l) (delete-count_zero p t g))
  ]

  pub update-count_zero :
      (p : R → Bool) (f : R → R) (t : List R) → ltb 0 (count p t) ≡ false → update p f t ≡ t
  update-count_zero p f [] h = refl
  update-count_zero p f (x ∷ t) h = elim (Bool-cases (p x)) [
    | inl yes_ ↦ let g = rw yes_ at h in ground arith
    | inr no_ ↦ let g = rw no_ at h in rw no_ (ap (λ l. x ∷ l) (update-count_zero p f t g))
  ]
