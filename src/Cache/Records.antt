-- ===== src/Cache/Records.antt =====
-- The operations of `Cache` (bms/cache.py) on the devices that are registered.
use building_controls.Prelude.{
  ℕ, ◌≤◌, ◌≡◌, refl, ◌≢◌, ◌↔◌, inl, inr, Bool, true, false, String, Option, none, some, List, [],
  ◌∷◌, arith, nat_beq, if◌then◌else◌, Bool-cases, Option-cases, ◌==◌, nat_eq, string_eq, list_eq,
  option_eq, pair_eq,
}
use building_controls.Prelude.Dict.{insert, lookup-insert, lookup-insert_self}
use building_controls.Value.{Value, Values}
use building_controls.Cache.{
  DeviceState, Cache, register, fresh, modify, record_success, record_failure, apply_local_write,
  succeeded, failed, get, empty,
}

-- The counters of a device agree with one another.
pub record IsConsistent (s : DeviceState) : Type 0 where
  pub bounded : s.consecutive_failures ≤ s.total_failures
  pub answered : s.last_success ≡ none → s.total_polls ≡ 0
  pub counted : s.total_polls ≡ 0 → s.last_success ≡ none
  pub unread : s.last_success ≡ none → s.avg_poll_ms ≡ none

abbrev pub AllConsistent : Cache → Type 0
AllConsistent c =
    (i : ℕ) (s : DeviceState)
    → get i c ≡ some s
    → IsConsistent s × (s.device_id ≡ i) × (s.offline_after ≡ c.offline_after)

-- One operation on the cache; `none` is the `KeyError` of a device that was never registered.
pub data Op : Type 0 where
  register_ : ℕ → String → String → String → Op
  success : ℕ → Values → Option ℕ → ℕ → Op
  failure : ℕ → String → ℕ → Op
  local_write : ℕ → String → Value → Op

abbrev pub target : Op → ℕ
target (register_ i _ _ _) = i
target (success i _ _ _) = i
target (failure i _ _) = i
target (local_write i _ _) = i

abbrev pub is_register : Op → Bool
is_register (register_ _ _ _ _) = true
is_register _ = false

unfoldable pub apply : Op → Cache → Option Cache
unfolding record_success record_failure apply_local_write
apply (register_ i name zone address) c = some (register i name zone address c)
apply (success i points elapsed now) c = record_success i points elapsed now c
apply (failure i error now) c = record_failure i error now c
apply (local_write i key value) c = apply_local_write i key value c

modify-get :
    (i : ℕ) (f : DeviceState → DeviceState) (c c' : Cache)
    → modify i f c ≡ some c'
    → (s : DeviceState) × (get i c ≡ some s)
      × (get i c' ≡ some (f s))
      × (c'.offline_after ≡ c.offline_after)
      × ((j : ℕ) → i ≢ j → get j c' ≡ get j c)
unfolding modify
modify-get i f c c' h = elim (Option-cases (get i c)) [
  | inl missing ↦ ground arith
  | inr (s, found) ↦
      let e : c' ≡ record c { devices = insert i (f s) c.devices } = ground arith in
      (
        s,
        found,
        rw e (lookup-insert_self i (f s) c.devices),
        rw e refl,
        λ j ne. rw e (ground (arith, lookup-insert i j (f s) c.devices)),
      )
]

register-get :
    (i : ℕ) (name zone address : String) (c : Cache) (j : ℕ)
    → get j (register i name zone address c)
      ≡ (if i == j then some (fresh i name zone address c.offline_after) else get j c)
unfolding register
register-get i name zone address c j =
    lookup-insert i j (fresh i name zone address c.offline_after) c.devices

-- An operation on one device leaves the state of every other device as it was.
pub apply-others :
    (op : Op) (c c' : Cache) (j : ℕ) → apply op c ≡ some c' → target op ≢ j → get j c' ≡ get j c
unfolding apply
apply-others (register_ i name zone address) c c' j h ne =
    let e : c' ≡ register i name zone address c = ground arith in
    rw e (ground (arith, register-get i name zone address c j))
apply-others (success i points elapsed now) c c' j h ne =
    (modify-get i (succeeded points elapsed now) c c' h).4 j ne
apply-others (failure i error now) c c' j h ne = (modify-get i (failed error now) c c' h).4 j ne
apply-others (local_write i key value) c c' j h ne =
    (modify-get i (λ s. record s { points = insert key value s.points }) c c' h).4 j ne

-- An operation on a registered device, or a registration, never raises, and on any other device it
-- raises `KeyError`.
pub apply-raises_iff :
    (op : Op) (c : Cache)
    → (apply op c ≡ none) ↔ ((get (target op) c ≡ none) × (is_register op ≡ false))
unfolding apply modify
apply-raises_iff (register_ i name zone address) c = ground arith
apply-raises_iff (success i points elapsed now) c = ground arith
apply-raises_iff (failure i error now) c = ground arith
apply-raises_iff (local_write i key value) c = ground arith

succeeded-IsConsistent :
    (points : Values) (elapsed : Option ℕ) (now : ℕ) (s : DeviceState)
    → IsConsistent s
    → IsConsistent (succeeded points elapsed now s)
unfolding succeeded
succeeded-IsConsistent points none now s k = ground arith
succeeded-IsConsistent points (some e) now s k = ground arith

succeeded-same :
    (points : Values) (elapsed : Option ℕ) (now : ℕ) (s : DeviceState)
    → ((succeeded points elapsed now s).device_id ≡ s.device_id)
      × ((succeeded points elapsed now s).offline_after ≡ s.offline_after)
unfolding succeeded
succeeded-same points none now s = (refl, refl)
succeeded-same points (some e) now s = (refl, refl)

failed-IsConsistent :
    (error : String) (now : ℕ) (s : DeviceState)
    → IsConsistent s
    → IsConsistent (failed error now s)
unfolding failed
failed-IsConsistent error now s k = ground arith

failed-same :
    (error : String) (now : ℕ) (s : DeviceState)
    → ((failed error now s).device_id ≡ s.device_id)
      × ((failed error now s).offline_after ≡ s.offline_after)
unfolding failed
failed-same error now s = (refl, refl)

module _ (i : ℕ) (f : DeviceState → DeviceState)
    (keeps : (s : DeviceState) → IsConsistent s → IsConsistent (f s))
    (same : (s : DeviceState)
      → ((f s).device_id ≡ s.device_id) × ((f s).offline_after ≡ s.offline_after)) where
  modify-AllConsistent :
      (c c' : Cache) → modify i f c ≡ some c' → AllConsistent c → AllConsistent c'
  modify-AllConsistent c c' h k j s found =
      let (old, was, now_, threshold, others) = modify-get i f c c' h in
      let inv = k i old was in
      elim (Bool-cases (nat_beq i j)) [
        | inl here ↦
            let e : i ≡ j = ground arith in
            let found' : get i c' ≡ some s = rw e found in
            let es : f old ≡ s = ground arith in
            let (fd, fo) = same old in
            let ic : IsConsistent s = rw (← es) (keeps old inv.0) in
            (ic, ground arith, ground arith)
        | inr apart ↦
            let ne : i ≢ j = ground arith in
            let was' : get j c ≡ some s = ground (arith, others j ne) in
            let (a, b, d) = k j s was' in (a, b, ground arith)
      ]

fresh-IsConsistent :
    (i : ℕ) (name zone address : String) (n : ℕ) → IsConsistent (fresh i name zone address n)
fresh-IsConsistent i name zone address n = ground arith

register-AllConsistent :
    (i : ℕ) (name zone address : String) (c : Cache)
    → AllConsistent c
    → AllConsistent (register i name zone address c)
unfolding register
register-AllConsistent i name zone address c k j s found = elim (Bool-cases (nat_beq i j)) [
  | inl here ↦
      let new = fresh i name zone address c.offline_after in
      let es : new ≡ s = ground (arith, register-get i name zone address c j) in
      let ic : IsConsistent s =
        rw (← es) (fresh-IsConsistent i name zone address c.offline_after) in
      (ic, ground arith, ground arith)
  | inr apart ↦
      let was : get j c ≡ some s = ground (arith, register-get i name zone address c j) in k j s was
]

apply-AllConsistent :
    (op : Op) (c c' : Cache) → apply op c ≡ some c' → AllConsistent c → AllConsistent c'
unfolding apply
apply-AllConsistent (register_ i name zone address) c c' h k =
    let e : c' ≡ register i name zone address c = ground arith in
    rw e (register-AllConsistent i name zone address c k)
apply-AllConsistent (success i points elapsed now) c c' h k =
    modify-AllConsistent i (succeeded points elapsed now)
      (succeeded-IsConsistent points elapsed now) (succeeded-same points elapsed now) c c' h k
apply-AllConsistent (failure i error now) c c' h k =
    modify-AllConsistent i (failed error now) (failed-IsConsistent error now)
      (failed-same error now) c c' h k
apply-AllConsistent (local_write i key value) c c' h k =
    modify-AllConsistent i (λ s. record s { points = insert key value s.points })
      (λ s q. ground arith) (λ s. (refl, refl)) c c' h k

unfoldable pub run : List Op → Cache → Option Cache
run [] c = some c
run (op ∷ ops) c = elim (apply op c) [ none ↦ none | some c' ↦ run ops c' ]

run-keeps :
    (ops : List Op) (c c' : Cache) → run ops c ≡ some c' → AllConsistent c → AllConsistent c'
unfolding run
run-keeps [] c c' h k = let e : c ≡ c' = ground arith in rw (← e) k
run-keeps (op ∷ ops) c c' h k = elim (Option-cases (apply op c)) [
  | inl raised ↦ ground arith
  | inr (d, went) ↦ run-keeps ops d c' (ground arith) (apply-AllConsistent op c d went k)
]

-- After any sequence of operations on a new cache, for every device found in it: the consecutive
-- misses are at most the total misses, it has answered exactly when polls are counted for it, it has
-- no average before its first answer, it stands under its own id, and its threshold is the cache's.
pub run-AllConsistent :
    (stale_after offline_after : ℕ) (ops : List Op) (c : Cache)
    → run ops (empty stale_after offline_after) ≡ some c
    → AllConsistent c
run-AllConsistent stale_after offline_after ops c h =
    run-keeps ops (empty stale_after offline_after) c h (λ i s found. ground arith)
