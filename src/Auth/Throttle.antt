-- ===== src/Auth/Throttle.antt =====
-- `LoginThrottle` (bms/auth.py). `str.lower` is a parameter, and times are milliseconds.
pub mod History
use building_controls.Prelude.{
  ℕ, ◌+◌, max, Bool, String, none, some, List, [], ◌∷◌, ◌++◌, ltb, leb, if◌then◌else◌, length, Eq,
  nat_eq, string_eq, list_eq, option_eq, pair_eq,
}
use Prim.Native.String.{◌++◌ as concat}
use building_controls.Prelude.Dict.{Dict, lookup, insert, erase}

pub record LoginThrottle : Type 0 where
  pub max_attempts : ℕ
  pub window : ℕ
  pub attempts : Dict String (List ℕ)

-- `__init__`, whose defaults are 8 attempts and 300 seconds
abbrev pub new_throttle : ℕ → ℕ → LoginThrottle
new_throttle max_attempts window = record {
  max_attempts = max_attempts;
  window = window;
  attempts = [];
}

-- `[t for t in ts if now - t < window]`
unfoldable pub recent : ℕ → ℕ → List ℕ → List ℕ
recent window now [] = []
recent window now (t ∷ ts) =
    if ltb now (t + window) then t ∷ recent window now ts else recent window now ts

-- `self._attempts.get(key, [])`
abbrev pub attempts_of : LoginThrottle → String → List ℕ
attempts_of t key = elim (lookup key t.attempts) [ none ↦ [] | some ts ↦ ts ]

unfoldable pub prune : String → ℕ → LoginThrottle → List ℕ × LoginThrottle
unfolding recent
prune key now t =
    let kept = recent t.window now (attempts_of t key) in
    (kept, record t { attempts = insert key kept t.attempts })

module _ (lower : String → String) where
  abbrev pub key_of : String → String → String
  key_of username client = concat (lower username) (concat "|" client)

  unfoldable pub blocked : String → String → ℕ → LoginThrottle → Bool × LoginThrottle
  unfolding prune
  blocked username client now t =
      let (kept, t') = prune (key_of username client) now t in
      (leb t.max_attempts (length kept), t')

  -- `_prune` stores the list that it returns, so the append is to the stored list
  unfoldable pub record_failure : String → String → ℕ → LoginThrottle → LoginThrottle
  unfolding prune
  record_failure username client now t =
      let key = key_of username client in
      let (kept, t') = prune key now t in
      record t' { attempts = insert key (kept ++ now ∷ []) t'.attempts }

  unfoldable pub clear : String → String → LoginThrottle → LoginThrottle
  clear username client t = record t { attempts = erase (key_of username client) t.attempts }
