-- ===== src/Weather/LookUps.antt =====
-- The postcode is looked up until it is found, and not after that.
use building_controls.Prelude.{
  ◌≡◌, refl, sym, ap, ◌∙◌, ◌⊎◌, inl, inr, true, false, String, Option, none, some, List, [], ◌∷◌,
  ◌++◌, arith, Bool-cases, Option-cases, All, All-append, nat_eq, string_eq, list_eq, option_eq,
  pair_eq,
}
use mathlib.Core.Path.{subst}
use building_controls.Weather.{
  Conditions, WeatherSource, Moment, Request, geocode, forecast, configured, located, recent,
  resolve, remember, ask, current, run, Current,
}
use building_controls.Weather.Memory.{Resolved, resolve-Resolved}

abbrev pub IsForecast : Request → Type 0
IsForecast (geocode zip) = ⊥
IsForecast (forecast lat lon) = Unit

-- After the first forecast there are only forecasts.
abbrev pub LookedUpFirst : List Request → Type 0
LookedUpFirst [] = Unit
LookedUpFirst (geocode zip ∷ rs) = LookedUpFirst rs
LookedUpFirst (forecast lat lon ∷ rs) = All IsForecast rs

-- a call asks for forecasts only, and then the place is known; or it looks up the postcode, and asks
-- for a forecast if that is found
abbrev Asked : WeatherSource → Option Conditions × WeatherSource × List Request → Type 0
Asked w (o, w', requests) =
    (All IsForecast requests × (located w' ≡ true))
    ⊎ ((located w ≡ false) × (requests ≡ []))
    ⊎ ((located w ≡ false) × ((zip : String) × (requests ≡ geocode zip ∷ [])))
    ⊎ ((located w ≡ false)
        × ((zip : String) × (lat : String) × (lon : String) × (requests
              ≡ geocode zip ∷ forecast lat lon ∷ []))
        × (located w' ≡ true))

remember-located :
    (m : Moment) (w : WeatherSource) (c : Option Current) → located (remember m w c).1 ≡ located w
remember-located m w none = refl
remember-located m w (some c) = elim (Option-cases c.temperature) [
  | inl unknown ↦ rw (unknown, remember) refl
  | inr (t, known) ↦ rw (known, remember) refl
]

ask-Asked :
    (m : Moment) (w : WeatherSource)
    (found : Option (String × String) × WeatherSource × List Request)
    → Resolved w found
    → Asked w (ask m found)
ask-Asked m w (none, w', requests) (_, _, _, inl (_, empty, known)) =
    inl (subst (All IsForecast) (sym empty) tt, known)
ask-Asked m w (none, w', requests) (_, _, _, inr (missing, inl empty)) = inr (inl (missing, empty))
ask-Asked m w (none, w', requests) (_, _, _, inr (missing, inr one)) =
    inr (inr (inl (missing, one)))
ask-Asked m w (some (lat, lon), w', requests) (_, _, known, rest) =
    let after : located (remember m w' (m.forecasts lat lon)).1 ≡ true =
      remember-located m w' (m.forecasts lat lon) ∙ known refl in
    elim rest [
      | inl (_, empty, _) ↦
          inl (subst (λ l. All IsForecast (l ++ forecast lat lon ∷ [])) (sym empty) (tt, tt), after)
      | inr (missing, inl empty) ↦
          inl (subst (λ l. All IsForecast (l ++ forecast lat lon ∷ [])) (sym empty) (tt, tt), after)
      | inr (missing, inr (zip, one)) ↦
          inr
            (inr (inr (missing, (zip, lat, lon, ap (λ l. l ++ forecast lat lon ∷ []) one), after)))
    ]

current-Asked : (m : Moment) (w : WeatherSource) → Asked w (current m w)
unfolding current
current-Asked m w = elim (Bool-cases (configured w)) [
  | inr off ↦ rw (off, current) (nothing none w)
  | inl on ↦ elim (Option-cases (recent m.now w)) [
    | inl old ↦ rw (on, old, current) (ask-Asked m w (resolve m w) (resolve-Resolved m w))
    | inr (c, young) ↦ rw (on, young, current) (nothing (some c) w)
  ]
]
  where
    nothing : (o : Option Conditions) (w : WeatherSource) → Asked w (o, w, [])
    nothing o w = elim (Bool-cases (located w)) [
      | inl known ↦ inl (tt, known)
      | inr missing ↦ inr (inl (missing, refl))
    ]

run-IsForecast :
    (ms : List Moment) (w : WeatherSource) → located w ≡ true → All IsForecast (run ms w).1
run-IsForecast [] w h = tt
run-IsForecast (m ∷ ms) w h =
    let (_, w1, first) = current m w in
    elim (current-Asked m w) [
      | inl (all, known) ↦
          All-append IsForecast first (run ms w1).1 all (run-IsForecast ms w1 known)
      | inr (inl (missing, _)) ↦ ground arith
      | inr (inr (inl (missing, _))) ↦ ground arith
      | inr (inr (inr (missing, _, _))) ↦ ground arith
    ]

only_forecasts : (rs : List Request) → All IsForecast rs → LookedUpFirst rs
only_forecasts [] h = tt
only_forecasts (geocode zip ∷ rs) (h, _) = elim h [ ]
only_forecasts (forecast lat lon ∷ rs) (_, h) = h

-- Over any calls of `current`, at any times and whatever the two services answer, the postcode is looked
-- up only before the first forecast is asked for: the coordinates that it gave are remembered.
pub run-LookedUpFirst : (ms : List Moment) (w : WeatherSource) → LookedUpFirst (run ms w).1
run-LookedUpFirst [] w = tt
run-LookedUpFirst (m ∷ ms) w =
    let (_, w1, first) = current m w in
    let rest = (run ms w1).1 in
    elim (current-Asked m w) [
      | inl (all, known) ↦
          only_forecasts (first ++ rest)
            (All-append IsForecast first rest all (run-IsForecast ms w1 known))
      | inr (inl (_, empty)) ↦
          subst (λ l. LookedUpFirst (l ++ rest)) (sym empty) (run-LookedUpFirst ms w1)
      | inr (inr (inl (_, (zip, one)))) ↦
          subst (λ l. LookedUpFirst (l ++ rest)) (sym one) (run-LookedUpFirst ms w1)
      | inr (inr (inr (_, (zip, lat, lon, two), known))) ↦
          subst (λ l. LookedUpFirst (l ++ rest)) (sym two) (run-IsForecast ms w1 known)
    ]
