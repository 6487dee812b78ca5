-- ===== src/Passkeys/Counter.antt =====
-- The sign counter of a credential never goes backwards, and ids stay unique.
use building_controls.Prelude.{
  ℕ, ◌≤◌, ◌≡◌, refl, sym, ◌∙◌, inl, inr, Bool, ◌&&◌, String, Option, none, some, List, [], ◌∷◌,
  arith, eq_iff, if◌then◌else◌, Bool-cases, Option-cases, ◌==◌, nat_eq, string_eq, eq_of_beq,
  list_eq, option_eq, pair_eq,
}
use building_controls.Prelude.Table.{
  fetch_one, update, fetch_one-holds, fetch_one-update, fetch_one-update-none,
}
use building_controls.Database.{WebauthnCredential}
use building_controls.Passkeys.{Assertion, Webauthn, State, presented, id_or_empty, stored, verify}
use building_controls.Passkeys.Challenges.{verify_lem, Advances}

abbrev pub has_id : String → WebauthnCredential → Bool
has_id i r = r.credential_id == i

-- `credential_id` is the primary key.
abbrev pub DistinctIds : List WebauthnCredential → Type 0
DistinctIds [] = Unit
DistinctIds (r ∷ t) = (fetch_one (has_id r.credential_id) t ≡ none) × DistinctIds t

-- Under distinct ids, the row of an id and a user is the row of the id.
found-by_id :
    (i : String) (user_id : ℕ) (t : List WebauthnCredential) (row : WebauthnCredential)
    → DistinctIds t
    → fetch_one (λ r. r.credential_id == i && r.user_id == user_id) t ≡ some row
    → fetch_one (has_id i) t ≡ some row
found-by_id i user_id [] row d h = ground arith
found-by_id i user_id (r ∷ t) row d h =
    ground (arith, eq_iff r.credential_id i, later, found-by_id i user_id t row d.1)
  where
    later :
        (r.credential_id ≡ i)
        → fetch_one (λ r. r.credential_id == i && r.user_id == user_id) t ≡ none
    later e = weaken t (rw e at d.0)
      where
        weaken :
            (u : List WebauthnCredential)
            → fetch_one (has_id i) u ≡ none
            → fetch_one (λ r. r.credential_id == i && r.user_id == user_id) u ≡ none
        weaken [] k = refl
        weaken (x ∷ u) k = ground (arith, weaken u)

update-DistinctIds :
    (p : WebauthnCredential → Bool) (f : WebauthnCredential → WebauthnCredential)
    (t : List WebauthnCredential)
    → ((r : WebauthnCredential) → (f r).credential_id ≡ r.credential_id)
    → DistinctIds t
    → DistinctIds (update p f t)
update-DistinctIds p f [] same d = tt
update-DistinctIds p f (r ∷ t) same d = elim (Bool-cases (p r)) [
  | inl here ↦ rw here (
    rw (same r) (fetch_one-update-none (has_id r.credential_id) p f t (λ x. rw (same x)) d.0),
    update-DistinctIds p f t same d.1,
  )
  | inr apart ↦ rw apart (
    fetch_one-update-none (has_id r.credential_id) p f t (λ x. rw (same x)) d.0,
    update-DistinctIds p f t same d.1,
  )
]

settled_count :
    (w : Webauthn) (done user_id : ℕ) (a : Assertion) (row : WebauthnCredential) (count : ℕ)
    (s s' : State) (i : String) (r : WebauthnCredential)
    → DistinctIds s.db.webauthn_credential
    → fetch_one (has_id i) s.db.webauthn_credential ≡ some r
    → stored w a.id user_id s.db.webauthn_credential ≡ some row
    → Advances w done user_id a row count s s'
    → ((r' : WebauthnCredential) × (fetch_one (has_id i) s'.db.webauthn_credential ≡ some r')
        × (r.sign_count ≤ r'.sign_count))
      × DistinctIds s'.db.webauthn_credential
settled_count w done user_id a row count s s' i r d found enrolled adv =
    let t = s.db.webauthn_credential in
    let p = λ (x : WebauthnCredential). x.credential_id == id_or_empty w a.id in
    let f = λ (x : WebauthnCredential). record x { sign_count = count; last_used_at = some done } in
    let moved = fetch_one-update (has_id i) p f t r (λ x. refl) found in
    let at_least_old : r.sign_count ≤ (if p r then f r else r).sign_count =
      elim (Bool-cases (p r)) [
        | inr other ↦ rw other (omega arith)
        | inl mine ↦
            rw mine (below a.id (eq_of_beq r.credential_id (id_or_empty w a.id) mine) enrolled)
      ] in
    (
      rw adv.updated ((if p r then f r else r), moved, at_least_old),
      rw adv.updated (update-DistinctIds p f t (λ x. refl) d),
    )
  where
    below :
        (id : Option String)
        → r.credential_id ≡ id_or_empty w id
        → stored w id user_id s.db.webauthn_credential ≡ some row
        → r.sign_count ≤ count
    below none e k = ground arith
    below (some j) e k =
        let t = s.db.webauthn_credential in
        let named : r.credential_id ≡ i =
          eq_of_beq r.credential_id i (fetch_one-holds (has_id i) t r found) in
        let same : fetch_one (has_id i) t ≡ some row =
          rw (sym named ∙ e) (found-by_id j user_id t row d k) in
        let rr : r ≡ row = ground arith in let bound = adv.advanced in ground arith

-- Whatever `verify` does, every stored credential is still there and its count is at least what it was;
-- and no two credentials come to share an id.
pub verify-count-le :
    (w : Webauthn) (now done user_id : ℕ) (a : Assertion) (actor : String) (s : State) (i : String)
    (r : WebauthnCredential)
    → DistinctIds s.db.webauthn_credential
    → fetch_one (has_id i) s.db.webauthn_credential ≡ some r
    → let s' = (verify w now done user_id a actor s).1 in
      ((r' : WebauthnCredential) × (fetch_one (has_id i) s'.db.webauthn_credential ≡ some r')
        × (r.sign_count ≤ r'.sign_count))
      × DistinctIds s'.db.webauthn_credential
unfolding verify
verify-count-le w now done user_id a actor s i r d found = elim (Option-cases (presented a)) [
  | inl missing ↦ rw (missing, verify) ((r, found, omega arith), d)
  | inr (c, given) ↦
      let s' = (verify w now done user_id a actor s).1 in
      let (outcome, _) = verify_lem w now done user_id a actor s c given in
      elim outcome [
        | inl (q, row, count, _, _, _, ans, adv) ↦
            settled_count w done user_id a row count s s' i r d found ans.enrolled adv
        | inr (_, _, same) ↦ rw same ((r, found, omega arith), d)
      ]
]
