-- ===== src/Config/Accepted.antt =====
-- What a configuration that is accepted guarantees.
use building_controls.Prelude.{
  ℕ, ◌⊎◌, ◌≤◌, ◌<◌, ◌≡◌, refl, sym, ap, ◌≢◌, inl, inr, String, Option, none, some, List, [], ◌∷◌,
  arith, leb, Bool-cases, Option-cases, All, Eq, ◌==◌, nat_eq, string_eq, ne_of_beq, list_eq,
  option_eq, pair_eq, some-inj,
}
use mathlib.Core.Path.{subst}
use building_controls.Prelude.Int.{ℤ, pos, negsuc}
use building_controls.Prelude.Dict.{Dict, lookup, insert, lookup-insert}
use building_controls.Config.{
  ◌>>=◌, RawDevice, DeviceConfig, or_default, sane_device_id, read_device, read_devices, duplicate,
  unique, number, RawConfig, Config, load,
}

>>=-some {ℓ κ} :
    {A : Type ℓ} {B : Type κ} (m : Option A) (f : A → Option B) (b : B)
    → (m >>= f) ≡ some b
    → (a : A) × (m ≡ some a) × (f a ≡ some b)
>>=-some none f b h = ground arith
>>=-some (some a) f b h = (a, refl, h)

sane_device_id_lem : (v : ℤ) (id : ℕ) → sane_device_id v ≡ some id → (v ≡ pos id) × (id < 4194302)
unfolding sane_device_id
sane_device_id_lem (negsuc n) id h = ground arith
sane_device_id_lem (pos v) id h = elim (Bool-cases (leb v 4194303)) [
  | inr big ↦ let g = rw big at h in ground arith
  | inl small ↦ elim (Bool-cases (leb 4194302 v)) [
    | inl default ↦ let g = rw (small, default) at h in ground arith
    | inr set ↦
        let g = rw (small, set) at h in
        let same : v ≡ id = ground arith in (ap pos same, ground arith)
  ]
]

-- a number between its bounds
abbrev pub Within : ℕ → Option ℕ → ℕ → Type 0
Within low none n = low ≤ n
Within low (some high) n = (low ≤ n) × (n ≤ high)

-- The number is the one that is given, or the default where none is, and between its bounds.
abbrev pub Read : ℕ → ℕ → Option ℕ → Option ℤ → ℕ → Type 0
Read default low high raw n =
    (((raw ≡ none) × (n ≡ default)) ⊎ (raw ≡ some (pos n))) × Within low high n

number-Read :
    (default low : ℕ) (high : Option ℕ) (raw : Option ℤ) (n : ℕ)
    → Within low high default
    → number default low high raw ≡ some n
    → Read default low high raw n
number-Read default low none none n w h = (inl (refl, ground arith), ground arith)
number-Read default low (some high) none n (l, t) h =
    (inl (refl, ground arith), (ground arith, ground arith))
number-Read default low none (some (negsuc k)) n w h = ground arith
number-Read default low (some high) (some (negsuc k)) n w h = ground arith
number-Read default low none (some (pos k)) n w h =
    let same : k ≡ n = ground arith in (inr (ap (λ m. some (pos m)) same), ground arith)
number-Read default low (some high) (some (pos k)) n w h =
    let same : k ≡ n = ground arith in
    (inr (ap (λ m. some (pos m)) same), (ground arith, ground arith))

-- no two devices share this field
abbrev pub DistinctBy {ℓ} : {A : Type ℓ} → (DeviceConfig → A) → List DeviceConfig → Type ℓ
DistinctBy field [] = Unit
DistinctBy field (d ∷ ds) = All (λ x. field d ≢ field x) ds × DistinctBy field ds

module _ {ℓ} {A : Type ℓ} ⦃e : Eq A⦄ (field : DeviceConfig → A) where
  unseen_apart :
      (d : DeviceConfig) (seen : Dict A String) (ds : List DeviceConfig)
      → All (λ x. lookup (field x) (insert (field d) d.name seen) ≡ none) ds
      → All (λ x. lookup (field x) seen ≡ none) ds × All (λ x. field d ≢ field x) ds
  unseen_apart d seen [] h = (tt, tt)
  unseen_apart d seen (x ∷ ds) (here, h) =
      let (old, apart) = unseen_apart d seen ds h in
      let inserted = lookup-insert (field d) (field x) d.name seen in
      elim (Bool-cases (field d == field x)) [
        | inl same ↦ ground (arith)
        | inr other ↦
            let kept : lookup (field x) seen ≡ none = ground arith in
            ((kept, old), (ne_of_beq (field d) (field x) other, apart))
      ]

  duplicate-DistinctBy :
      (seen : Dict A String) (ds : List DeviceConfig)
      → duplicate field seen ds ≡ none
      → All (λ x. lookup (field x) seen ≡ none) ds × DistinctBy field ds
  unfolding duplicate
  duplicate-DistinctBy seen [] h = (tt, tt)
  duplicate-DistinctBy seen (d ∷ ds) h = elim (Option-cases (lookup (field d) seen)) [
    | inr (other, found) ↦ let g = rw (found, duplicate) at h in ground arith
    | inl new ↦
        let (rest, distinct) =
          duplicate-DistinctBy (insert (field d) d.name seen) ds (rw (new, duplicate) at h) in
        let (old, apart) = unseen_apart d seen ds rest in ((new, old), (apart, distinct))
  ]

unique_lem :
    (ds ds' : List DeviceConfig)
    → unique ds ≡ some ds'
    → (ds' ≡ ds) × DistinctBy (λ d. d.device_id) ds × DistinctBy (λ d. d.address) ds
unfolding unique
unique_lem ds ds' h = elim (Option-cases (duplicate (λ d. d.device_id) [] ds)) [
  | inr (names, twice) ↦ let g = rw (twice, unique) at h in ground arith
  | inl ids ↦ elim (Option-cases (duplicate (λ d. d.address) [] ds)) [
    | inr (names, twice) ↦ let g = rw (ids, twice, unique) at h in ground arith
    | inl addresses ↦
        let g = rw (ids, addresses, unique) at h in
        (
          ground arith,
          (duplicate-DistinctBy (λ d. d.device_id) [] ds ids).1,
          (duplicate-DistinctBy (λ d. d.address) [] ds addresses).1,
        )
  ]
]

read_devices_lem :
    (rs : List RawDevice) (ds : List DeviceConfig)
    → read_devices rs ≡ some ds
    → All (λ d. d.device_id < 4194302) ds
unfolding read_devices
read_devices_lem [] [] h = tt
read_devices_lem [] (d ∷ ds) h = ground arith
read_devices_lem (r ∷ rs) ds h =
    let (d, one, rest) = >>=-some (read_device r) _ ds h in
    let (others, all, same) = >>=-some (read_devices rs) _ ds rest in
    let (id, set, device) = >>=-some (sane_device_id r.device_id) _ d one in
    let (_, small) = sane_device_id_lem r.device_id id set in
    let read : DeviceConfig = record {
      device_id = id;
      address = r.address;
      name = r.name;
      zone = or_default "default" r.zone;
      mac = r.mac;
    } in
    let made : read ≡ d = some-inj read d device in
    let list : d ∷ others ≡ ds = some-inj (d ∷ others) ds same in
    subst (All (λ d. d.device_id < 4194302)) list (
      subst (λ (d : DeviceConfig). d.device_id < 4194302) made small,
      read_devices_lem rs others all,
    )

-- What the rest of the service relies on.
abbrev pub IsValid : RawConfig → Config → Type 0
IsValid raw c =
    All (λ d. d.device_id < 4194302) c.devices
    × DistinctBy (λ d. d.device_id) c.devices
    × DistinctBy (λ d. d.address) c.devices
    × Read 1500 250 none raw.apdu_timeout_ms c.apdu_timeout_ms
    × Read 3 0 none raw.apdu_retries c.apdu_retries
    × Read 10000 1000 none raw.poll_interval c.poll_interval
    × Read 3 1 none raw.offline_after_failures c.offline_after_failures
    × Read 1 1 (some 32) raw.poll_concurrency c.poll_concurrency
    × Read 300000 0 none raw.history_interval c.history_interval
    × Read 7776000000 0 none raw.history_retention c.history_retention
    × Read 30000 1000 none raw.max_clock_drift c.max_clock_drift
    × Read 300000 10000 none raw.reconcile_interval c.reconcile_interval

-- A configuration that is accepted has devices of which no two share an id or an address, none with the
-- id of a unit that was never set up; and each of the nine numbers that have a bound is the one of the
-- file, or its default where the file has none, and is between its bounds, so that a file with a negative
-- history interval or retention is not accepted.
pub load-IsValid : (raw : RawConfig) (c : Config) → load raw ≡ some c → IsValid raw c
unfolding load
load-IsValid raw c h =
    let (timeout, t, h1) = >>=-some (number 1500 250 none raw.apdu_timeout_ms) _ c h in
    let (retries, r, h2) = >>=-some (number 3 0 none raw.apdu_retries) _ c h1 in
    let (read, rs, h3) = >>=-some (read_devices raw.devices) _ c h2 in
    let (devices, u, h4) = >>=-some (unique read) _ c h3 in
    let (poll, p, h5) = >>=-some (number 10000 1000 none raw.poll_interval) _ c h4 in
    let (offline, o, h6) = >>=-some (number 3 1 none raw.offline_after_failures) _ c h5 in
    let (tasks, n, h7) = >>=-some (number 1 1 (some 32) raw.poll_concurrency) _ c h6 in
    let (history, y, h8) = >>=-some (number 300000 0 none raw.history_interval) _ c h7 in
    let (kept, k, h9) = >>=-some (number 7776000000 0 none raw.history_retention) _ c h8 in
    let (drift, d, h10) = >>=-some (number 30000 1000 none raw.max_clock_drift) _ c h9 in
    let (again, g, h11) = >>=-some (number 300000 10000 none raw.reconcile_interval) _ c h10 in
    let (same, ids, addresses) = unique_lem read devices u in
    let sane = read_devices_lem raw.devices read rs in
    let made : Config = record {
      apdu_timeout_ms = timeout;
      apdu_retries = retries;
      devices = devices;
      poll_interval = poll;
      offline_after_failures = offline;
      poll_concurrency = tasks;
      history_interval = history;
      history_retention = kept;
      max_clock_drift = drift;
      reconcile_interval = again;
    } in
    subst (IsValid raw) (some-inj made c h11) (
      subst (All (λ d. d.device_id < 4194302)) (sym same) sane,
      subst (DistinctBy (λ d. d.device_id)) (sym same) ids,
      subst (DistinctBy (λ d. d.address)) (sym same) addresses,
      number-Read 1500 250 none raw.apdu_timeout_ms timeout (omega arith) t,
      number-Read 3 0 none raw.apdu_retries retries (omega arith) r,
      number-Read 10000 1000 none raw.poll_interval poll (omega arith) p,
      number-Read 3 1 none raw.offline_after_failures offline (omega arith) o,
      number-Read 1 1 (some 32) raw.poll_concurrency tasks (omega arith, omega arith) n,
      number-Read 300000 0 none raw.history_interval history (omega arith) y,
      number-Read 7776000000 0 none raw.history_retention kept (omega arith) k,
      number-Read 30000 1000 none raw.max_clock_drift drift (omega arith) d,
      number-Read 300000 10000 none raw.reconcile_interval again (omega arith) g,
    )
