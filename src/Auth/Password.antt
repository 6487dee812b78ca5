-- ===== src/Auth/Password.antt =====
-- Stored password hashes (bms/auth.py `hash_password`, `_parse`, `verify_password`, `needs_rehash`).
-- `hashlib.scrypt` is a parameter. Bytes and texts are lists of numbers.
pub mod Hex
pub mod Laws
use building_controls.Prelude.{
  ℕ, ◌≡◌, refl, ◌⊎◌, inl, inr, Bool, true, false, ◌&&◌, not, Option, none, some, List, [], ◌∷◌,
  ◌++◌, ltb, if◌then◌else◌, length, Eq, ◌==◌, nat_eq, string_eq, list_eq, option_eq, pair_eq,
}
use building_controls.Prelude.Int.{ℤ, pos, int_eq}
use building_controls.Prelude.Text.{Text, codes, split}
use building_controls.Auth.Password.Hex.{hex, from_hex, parse_int}

pub data Error : Type 0 where
  value_error type_error other_error : Error

pub data Result {ℓ} (A : Type ℓ) : Type ℓ where
  ok : A → Result A
  raise : Error → Result A

infixl 5 ◌>>=◌
abbrev pub ◌>>=◌ {ℓ κ} : {A : Type ℓ} {B : Type κ} → Result A → (A → Result B) → Result B
ok a >>= f = f a
raise e >>= f = raise e

abbrev pub or_value_error {ℓ} : {A : Type ℓ} → Option A → Result A
or_value_error none = raise value_error
or_value_error (some a) = ok a

-- The cost parameters, the salt and the key in hexadecimal.
pub record Parsed : Type 0 where
  pub n : ℤ
  pub r : ℤ
  pub p : ℤ
  pub salt : List ℕ
  pub key_hex : Text

abbrev pub scrypt_n : ℤ
scrypt_n = pos 131072

abbrev pub scrypt_r : ℤ
scrypt_r = pos 8

abbrev pub scrypt_p : ℤ
scrypt_p = pos 1

abbrev pub dklen : ℕ
dklen = 32

abbrev pub dollar : ℕ
dollar = b'$'

parse_parts : List Text → Result (Option Parsed)
parse_parts (tag ∷ n ∷ r ∷ p ∷ salt_hex ∷ key_hex ∷ []) =
    if tag == codes "scrypt"
    then (do
      n' ← or_value_error (parse_int n)
      r' ← or_value_error (parse_int r)
      p' ← or_value_error (parse_int p)
      salt ← or_value_error (from_hex salt_hex)
      ok (some (record { n = n'; r = r'; p = p'; salt = salt; key_hex = key_hex })))
    else ok none
parse_parts (tag ∷ salt_hex ∷ key_hex ∷ []) =
    if tag == codes "scrypt"
    then (do
      salt ← or_value_error (from_hex salt_hex)
      ok (some (record { n = pos 16384; r = pos 8; p = pos 1; salt = salt; key_hex = key_hex })))
    else ok none
parse_parts _ = ok none

-- `_parse`
unfoldable pub parse : Text → Result (Option Parsed)
unfolding parse_parts
parse stored = parse_parts (split dollar stored)

abbrev pub is_ascii : Text → Bool
is_ascii [] = true
is_ascii (c ∷ s) = ltb c 128 && is_ascii s

-- `hmac.compare_digest` on two `str`: it refuses text that is not ASCII
unfoldable pub compare_digest : Text → Text → Result Bool
compare_digest a b = if is_ascii a && is_ascii b then ok (a == b) else raise type_error

-- `(n, r, p) != (_SCRYPT_N, _SCRYPT_R, _SCRYPT_P)`
outdated : Parsed → Bool
outdated x = not (x.n == scrypt_n && x.r == scrypt_r && x.p == scrypt_p)

unfoldable pub needs_rehash : Text → Result Bool
unfolding outdated
needs_rehash stored = do
  parsed ← parse stored
  elim parsed [ none ↦ ok true | some x ↦ ok (outdated x) ]

-- `hashlib.scrypt`: password, salt, n, r, p and the length of the key. `_maxmem` is a function of n and
-- r, so the memory limit that is passed adds nothing to these.
abbrev pub Scrypt : Type 0
Scrypt = Text → List ℕ → ℤ → ℤ → ℤ → ℕ → Result (List ℕ)

module _ (scrypt : Scrypt) where
  -- `salt` is what `secrets.token_bytes(16)` returned
  unfoldable pub hash_password : List ℕ → Text → Result Text
  hash_password salt password = if ltb (length password) 8 then raise value_error else (do
    key ← scrypt password salt scrypt_n scrypt_r scrypt_p dklen
    ok (codes "scrypt$131072$8$1$" ++ (hex salt ++ dollar ∷ hex key)))

  pub derived : Text → Result (Option Parsed) → Result (Option (List ℕ × Text))
  derived password (ok none) = ok none
  derived password (raise e) = raise e
  derived password (ok (some x)) = do
    key ← scrypt password x.salt x.n x.r x.p dklen
    ok (some (key, x.key_hex))

  pub compared : Result (Option (List ℕ × Text)) → Result Bool
  compared (ok none) = ok false
  compared (ok (some (key, key_hex))) = compare_digest (hex key) key_hex
  compared (raise value_error) = ok false
  compared (raise type_error) = ok false
  compared (raise other_error) = raise other_error

  -- the `except` covers the parsing and the derivation, and not the comparison
  unfoldable pub verify_password : Text → Text → Result Bool
  unfolding derived compared
  verify_password password stored = compared (derived password (parse stored))

pub Result-cases {ℓ} :
    {A : Type ℓ} (r : Result A) → ((a : A) × (r ≡ ok a)) ⊎ ((e : Error) × (r ≡ raise e))
Result-cases (ok a) = inl (a, refl)
Result-cases (raise e) = inr (e, refl)
