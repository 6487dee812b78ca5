-- ===== src/Auth/Password/Laws.antt =====
-- What a stored hash accepts, and when it is upgraded.
use building_controls.Prelude.{
  ℕ, ◌≤◌, ◌<◌, ◌≡◌, refl, ap, ◌≢◌, ◌↔◌, true, false, some, List, [], ◌∷◌, ◌++◌, arith, length, All,
  nat_eq, string_eq, list_eq, option_eq, pair_eq,
}
use building_controls.Prelude.Int.{ℤ, pos}
use building_controls.Prelude.Text.{Text, codes, split}
use building_controls.Auth.Password.Hex.{
  hex, parse_int, Byte, from_hex-hex, hex_plain, hex_inj, split_none, split-append,
}
use building_controls.Auth.Password.{
  value_error, type_error, other_error, Result, ok, raise, Parsed, parse, needs_rehash, Scrypt,
  hash_password, verify_password, compare_digest, is_ascii, derived, compared, scrypt_n, scrypt_r,
  scrypt_p, dklen, dollar,
}

All-map : {P Q : ℕ → Type 0} (s : Text) → ((c : ℕ) → P c → Q c) → All P s → All Q s
All-map [] f h = tt
All-map (c ∷ s) f (hc, h) = (f c hc, All-map s f h)

no_dollar : (bs : List ℕ) → All Byte bs → All (λ c. c ≢ dollar) (hex bs)
no_dollar bs h = All-map (hex bs) (λ c p. omega arith) (hex_plain bs h)

split_current :
    (salt key : List ℕ)
    → All Byte salt
    → All Byte key
    → split dollar (codes "scrypt$131072$8$1$" ++ (hex salt ++ dollar ∷ hex key))
      ≡ codes "scrypt" ∷ codes "131072" ∷ codes "8" ∷ codes "1" ∷ hex salt ∷ hex key ∷ []
split_current salt key hs hk = rw (
  split-append dollar (hex salt) (hex key) (no_dollar salt hs),
  split_none dollar (hex key) (no_dollar key hk),
)

parse_current :
    (salt key : List ℕ)
    → All Byte salt
    → All Byte key
    → parse (codes "scrypt$131072$8$1$" ++ (hex salt ++ dollar ∷ hex key))
      ≡ ok (
          some
            (record { n = scrypt_n; r = scrypt_r; p = scrypt_p; salt = salt; key_hex = hex key }))
unfolding parse parse_int
parse_current salt key hs hk = rw (split_current salt key hs hk, from_hex-hex salt hs)

split_legacy :
    (salt key : List ℕ)
    → All Byte salt
    → All Byte key
    → split dollar (codes "scrypt$" ++ (hex salt ++ dollar ∷ hex key))
      ≡ codes "scrypt" ∷ hex salt ∷ hex key ∷ []
split_legacy salt key hs hk = rw (
  split-append dollar (hex salt) (hex key) (no_dollar salt hs),
  split_none dollar (hex key) (no_dollar key hk),
)

hex-ascii : (bs : List ℕ) → All Byte bs → is_ascii (hex bs) ≡ true
hex-ascii bs h = plain (hex bs) (hex_plain bs h)
  where
    plain : (s : Text) → All (λ c. (48 ≤ c) × (c < 128)) s → is_ascii s ≡ true
    plain [] q = refl
    plain (c ∷ s) (qc, q) = ground (arith, plain s q)

compare_keys :
    (k j : List ℕ) → All Byte k → All Byte j → (compare_digest (hex k) (hex j) ≡ ok true) ↔ (k ≡ j)
unfolding compare_digest
compare_keys k j hk hj =
    let a = hex-ascii k hk in
    let b = hex-ascii j hj in
    let e = list_eq.equals_iff (hex k) (hex j) in
    (λ h. hex_inj k j hk hj (e.0 (ground arith)), λ h. let same = e.1 (ap hex h) in ground arith)

module _ (scrypt : Scrypt)
    (bytes : (password : Text) (salt : List ℕ) (n r p : ℤ) (len : ℕ) (key : List ℕ)
      → scrypt password salt n r p len ≡ ok key
      → All Byte key) where
  -- the comparison at the end of `verify_password`, when the stored key is a given one
  compared_iff :
      (password : Text) (x : Parsed) (key : List ℕ)
      → All Byte key
      → x.key_hex ≡ hex key
      → (compared scrypt (derived scrypt password (ok (some x))) ≡ ok true)
        ↔ (scrypt password x.salt x.n x.r x.p dklen ≡ ok key)
  unfolding compared derived
  compared_iff password x key hk stored = by_outcome (scrypt password x.salt x.n x.r x.p dklen) refl
    where
      by_outcome :
          (o : Result (List ℕ))
          → scrypt password x.salt x.n x.r x.p dklen ≡ o
          → (compared scrypt (derived scrypt password (ok (some x))) ≡ ok true)
            ↔ (scrypt password x.salt x.n x.r x.p dklen ≡ ok key)
      by_outcome (ok k) e =
          let hj = bytes password x.salt x.n x.r x.p dklen k e in
          let c = compare_keys k key hj hk in rw (e, stored) ((λ h. ap ok (c.0 h)), (λ h. c.1 (cc)))
      by_outcome (raise value_error) e = rw e (ground arith)
      by_outcome (raise type_error) e = rw e (ground arith)
      by_outcome (raise other_error) e = rw e (ground arith)

  hash-shape :
      (salt : List ℕ) (password stored : Text)
      → hash_password scrypt salt password ≡ ok stored
      → (key : List ℕ) × (scrypt password salt scrypt_n scrypt_r scrypt_p dklen ≡ ok key)
        × (stored ≡ codes "scrypt$131072$8$1$" ++ (hex salt ++ dollar ∷ hex key))
        × (8 ≤ length password)
  unfolding hash_password
  hash-shape salt password stored h =
      go (scrypt password salt scrypt_n scrypt_r scrypt_p dklen) refl
    where
      go :
          (o : Result (List ℕ))
          → scrypt password salt scrypt_n scrypt_r scrypt_p dklen ≡ o
          → (key : List ℕ) × (scrypt password salt scrypt_n scrypt_r scrypt_p dklen ≡ ok key)
            × (stored ≡ codes "scrypt$131072$8$1$" ++ (hex salt ++ dollar ∷ hex key))
            × (8 ≤ length password)
      go (ok k) e = (k, e, ground arith, ground arith)
      go (raise x) e = ground arith

  -- A hash that `hash_password` makes is of a password of 8 characters or more and needs no upgrade,
  -- and a password verifies against it exactly when scrypt derives from it, under the stored salt,
  -- the key that it derived from the password hashed. So the password itself verifies.
  pub hash-verify :
      (salt : List ℕ) (password stored : Text)
      → All Byte salt
      → hash_password scrypt salt password ≡ ok stored
      → (8 ≤ length password)
        × (needs_rehash stored ≡ ok false)
        × (verify_password scrypt password stored ≡ ok true)
        × ((other : Text)
            → (verify_password scrypt other stored ≡ ok true) ↔ (
                scrypt other salt scrypt_n scrypt_r scrypt_p dklen
                ≡ scrypt password salt scrypt_n scrypt_r scrypt_p dklen))
  unfolding needs_rehash verify_password
  hash-verify salt password stored hs h =
      let (key, derives, shape, long) = hash-shape salt password stored h in
      let hk = bytes password salt scrypt_n scrypt_r scrypt_p dklen key derives in
      let parses = parse_current salt key hs hk in
      let x : Parsed = record {
        n = scrypt_n;
        r = scrypt_r;
        p = scrypt_p;
        salt = salt;
        key_hex = hex key;
      } in
      (
        long,
        rw (shape, parses) refl,
        rw (shape, parses) ((compared_iff password x key hk refl).1 derives),
        λ other. rw (shape, parses, derives) (compared_iff other x key hk refl),
      )

  -- A hash in the older form, without cost parameters, still accepts exactly the passwords from which
  -- scrypt derives its key at the older cost of 2^14, and is reported as needing an upgrade.
  pub legacy-verify :
      (salt key : List ℕ) (password : Text)
      → All Byte salt
      → All Byte key
      → let stored = codes "scrypt$" ++ (hex salt ++ dollar ∷ hex key) in
        (needs_rehash stored ≡ ok true)
        × ((verify_password scrypt password stored ≡ ok true)
            ↔ (scrypt password salt (pos 16384) (pos 8) (pos 1) dklen ≡ ok key))
  unfolding needs_rehash verify_password parse
  legacy-verify salt key password hs hk =
      let x : Parsed = record {
        n = pos 16384;
        r = pos 8;
        p = pos 1;
        salt = salt;
        key_hex = hex key;
      } in
      (
        rw (split_legacy salt key hs hk, from_hex-hex salt hs) refl,
        rw (split_legacy salt key hs hk, from_hex-hex salt hs)
            (compared_iff password x key hk refl),
      )
