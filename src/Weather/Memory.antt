-- ===== src/Weather/Memory.antt =====
-- What the source of conditions remembers.
use building_controls.Prelude.{
  ℕ, ◌+◌, ◌<◌, ◌≡◌, refl, sym, ◌⊎◌, inl, inr, true, false, String, Option, none, some, List, [],
  ◌∷◌, ◌++◌, arith, ltb, ltb→lt, Bool-cases, Option-cases, is_some, ◌==◌, nat_eq, string_eq,
  list_eq, option_eq, pair_eq,
}
use mathlib.Core.Path.{subst}
use building_controls.Weather.{
  Conditions, WeatherSource, Moment, Request, geocode, forecast, configured, located, recent,
  cache_time, resolve, remember, ask, current, Current, Place, locate, look_up, or_empty, both,
}

-- What a call did: it returned nothing and kept what it had; or what is remembered, younger than ten
-- minutes, without a request; or what it now remembers, with the time.
abbrev pub Answered :
    Moment → WeatherSource → Option Conditions × WeatherSource × List Request → Type 0
Answered m w (o, w', requests) =
    ((o ≡ none) × (w'.cached ≡ w.cached) × (w'.fetched_at ≡ w.fetched_at))
    ⊎ (((c : Conditions) × (o ≡ some c))
        × (w'.cached ≡ o)
        × (((m.now < w.fetched_at + cache_time) × (requests ≡ []) × (w' ≡ w))
            ⊎ (w'.fetched_at ≡ m.later)))

-- Whether a place was resolved: the coordinates are known after it, or there are none.
abbrev pub Resolved :
    WeatherSource → Option (String × String) × WeatherSource × List Request → Type 0
Resolved w (o, w', requests) =
    (w'.cached ≡ w.cached)
    × (w'.fetched_at ≡ w.fetched_at)
    × (is_some o ≡ true → located w' ≡ true)
    × (((located w ≡ true) × (requests ≡ []) × (located w' ≡ true))
        ⊎ ((located w ≡ false)
            × ((requests ≡ []) ⊎ ((zip : String) × (requests ≡ geocode zip ∷ [])))))

-- a place changes nothing that is remembered of the conditions, and is only found with coordinates
locate_lem :
    (p : Place) (w : WeatherSource)
    → let (found, w') = locate p w in
      (w'.cached ≡ w.cached)
      × (w'.fetched_at ≡ w.fetched_at)
      × (is_some found ≡ true → located w' ≡ true)
locate_lem p w = elim (Option-cases p.latitude) [
  | inl bad ↦ rw (bad, locate) (refl, refl, λ e. ground arith)
  | inr (lat, a) ↦ elim (Option-cases p.longitude) [
    | inl bad ↦ rw (a, bad, locate) (refl, refl, λ e. ground arith)
    | inr (lon, b) ↦ elim (Option-cases p.label) [
      | inl bad ↦ rw (a, b, bad, locate) (refl, refl, λ e. refl)
      | inr (label, c) ↦ rw (a, b, c, locate) (refl, refl, λ e. refl)
    ]
  ]
]

look_up-Resolved : (m : Moment) (w : WeatherSource) → located w ≡ false → Resolved w (look_up m w)
look_up-Resolved m w h = elim (Bool-cases (or_empty w.zip == "")) [
  | inl blank ↦ rw (blank, look_up) (refl, refl, (λ e. ground arith), inr (h, inl refl))
  | inr zip ↦ elim (Option-cases (m.places (or_empty w.zip))) [
    | inl lost ↦
        rw (zip, lost, look_up)
          (refl, refl, (λ e. ground arith), inr (h, inr (or_empty w.zip, refl)))
    | inr (p, found) ↦
        let (same, time, known) = locate_lem p w in
        rw (zip, found, look_up) (same, time, known, inr (h, inr (or_empty w.zip, refl)))
  ]
]

resolve-missing : (m : Moment) (w : WeatherSource) → located w ≡ false → resolve m w ≡ look_up m w
unfolding resolve
resolve-missing m w h = elim (Option-cases (both w.lat w.lon)) [
  | inl none_ ↦ rw (none_, resolve) refl
  | inr (place, some_) ↦ let g = rw some_ at h in ground arith
]

resolve-located :
    (m : Moment) (w : WeatherSource)
    → located w ≡ true
    → (place : String × String) × (resolve m w ≡ (some place, w, []))
unfolding resolve
resolve-located m w h = elim (Option-cases (both w.lat w.lon)) [
  | inl none_ ↦ let g = rw none_ at h in ground arith
  | inr (place, some_) ↦ (place, rw (some_, resolve) refl)
]

pub resolve-Resolved : (m : Moment) (w : WeatherSource) → Resolved w (resolve m w)
resolve-Resolved m w = elim (Bool-cases (located w)) [
  | inl known ↦
      let (place, same) = resolve-located m w known in
      subst (Resolved w) (sym same) (refl, refl, (λ e. known), inl (known, refl, known))
  | inr missing ↦
      subst (Resolved w) (sym (resolve-missing m w missing)) (look_up-Resolved m w missing)
]

remember-Answered :
    (m : Moment) (w w' : WeatherSource) (c : Option Current) (requests : List Request)
    → w'.cached ≡ w.cached
    → w'.fetched_at ≡ w.fetched_at
    → Answered m w ((remember m w' c).0, (remember m w' c).1, requests)
remember-Answered m w w' none requests same time = inl (refl, same, time)
remember-Answered m w w' (some c) requests same time = elim (Option-cases c.temperature) [
  | inl unknown ↦ rw (unknown, remember) (inl (refl, same, time))
  | inr (t, known) ↦ rw (known, remember) (inr ((_, refl), refl, inr refl))
]

ask-Answered :
    (m : Moment) (w : WeatherSource)
    (found : Option (String × String) × WeatherSource × List Request)
    → Resolved w found
    → Answered m w (ask m found)
ask-Answered m w (none, w', requests) (same, time, _, _) = inl (refl, same, time)
ask-Answered m w (some (lat, lon), w', requests) (same, time, _, _) =
    remember-Answered m w w' (m.forecasts lat lon) (requests ++ forecast lat lon ∷ []) same time

recent_lem :
    (now : ℕ) (w : WeatherSource) (c : Conditions)
    → recent now w ≡ some c
    → (now < w.fetched_at + cache_time) × (w.cached ≡ some c)
recent_lem now w c h = elim (Bool-cases (ltb now (w.fetched_at + cache_time))) [
  | inl young ↦ (ltb→lt _ _ young, rw young at h)
  | inr old ↦ let g = rw old at h in ground arith
]

-- `current` returns nothing and keeps what it remembers; or it returns what it remembered, less than
-- ten minutes after it was fetched, without a request; or it returns what it has just fetched, and
-- remembers it with the time. In particular no failure of a service loses what is remembered.
pub current_lem : (m : Moment) (w : WeatherSource) → Answered m w (current m w)
unfolding current
current_lem m w = elim (Bool-cases (configured w)) [
  | inr off ↦ rw (off, current) (inl (refl, refl, refl))
  | inl on ↦ elim (Option-cases (recent m.now w)) [
    | inl old ↦ rw (on, old, current) (ask-Answered m w (resolve m w) (resolve-Resolved m w))
    | inr (c, young) ↦
        let (time, same) = recent_lem m.now w c young in
        rw (on, young, current) (inr ((c, refl), same, inl (time, refl, refl)))
  ]
]
