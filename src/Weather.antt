-- ===== src/Weather.antt =====
-- Outdoor conditions from a public service (bms/weather.py `WeatherSource`). The answers of the two
-- services are parameters, `none` for any failure; numbers of the services stay as the text they come
-- in until `float` reads them, which is a parameter too. Times are milliseconds.
pub mod Memory
pub mod LookUps
mod Tests
use building_controls.Prelude.{
  ℕ, ◌+◌, Bool, false, ◌||◌, not, String, Option, none, some, List, [], ◌∷◌, ◌++◌, ltb,
  if◌then◌else◌, is_some, Eq, ◌==◌, nat_eq, string_eq, list_eq, option_eq, pair_eq,
}

-- `CACHE_SECONDS`
abbrev pub cache_time : ℕ
cache_time = 600000

-- a real number, by its text
pub record Conditions : Type 0 where
  pub temperature_f : String
  pub humidity_pct : Option String
  pub observed_at : String
  pub place : String

pub record WeatherSource : Type 0 where
  pub zip : Option String
  pub lat : Option String
  pub lon : Option String
  pub place_name : String
  pub cached : Option Conditions
  pub fetched_at : ℕ

-- A place of the postcode service, with its label: what raises when it is read is `none`.
pub record Place : Type 0 where
  pub latitude : Option String
  pub longitude : Option String
  pub label : Option String

-- the `current` of a forecast
pub record Current : Type 0 where
  pub temperature : Option String
  pub humidity : Option String
  pub time : Option String

pub data Request : Type 0 where
  geocode : String → Request
  forecast : String → String → Request

abbrev pub or_empty : Option String → String
or_empty none = ""
or_empty (some s) = s

abbrev pub has_text : Option String → Bool
has_text none = false
has_text (some s) = not (s == "")

-- the coordinates, where neither of them is `None`
abbrev pub both : Option String → Option String → Option (String × String)
both none lon = none
both (some lat) none = none
both (some lat) (some lon) = some (lat, lon)

abbrev pub located : WeatherSource → Bool
located w = is_some (both w.lat w.lon)

-- `configured`
abbrev pub configured : WeatherSource → Bool
configured w = has_text w.zip || located w

-- `self._place or (self._zip or "")`
abbrev pub place_of : WeatherSource → String
place_of w = if w.place_name == "" then or_empty w.zip else w.place_name

-- conditions fetched less than ten minutes ago
abbrev pub recent : ℕ → WeatherSource → Option Conditions
recent now w = if ltb now (w.fetched_at + cache_time) then w.cached else none

-- the two services at the time of a call, and the clock when the call begins and when it ends
pub record Moment : Type 0 where
  pub places : String → Option Place
  pub forecasts : String → String → Option Current
  pub now : ℕ
  pub later : ℕ

-- The place is read one attribute after the other, and what was set before one raises stays.
abbrev pub locate : Place → WeatherSource → Option (String × String) × WeatherSource
locate p w = elim p.latitude [
  | none ↦ (none, w)
  | some lat ↦ elim p.longitude [
    | none ↦ (none, record w { lat = some lat })
    | some lon ↦ elim p.label [
      | none ↦ (none, record w { lat = some lat; lon = some lon })
      | some label ↦
          (some (lat, lon), record w { lat = some lat; lon = some lon; place_name = label })
    ]
  ]
]

-- `_resolve` where a coordinate is missing
abbrev pub look_up :
    Moment → WeatherSource → Option (String × String) × WeatherSource × List Request
look_up m w =
    let zip = or_empty w.zip in
    if zip == "" then (none, w, []) else elim (m.places zip) [
      | none ↦ (none, w, geocode zip ∷ [])
      | some p ↦ let (found, w') = locate p w in (found, w', geocode zip ∷ [])
    ]

-- `_resolve`
unfoldable pub resolve :
    Moment → WeatherSource → Option (String × String) × WeatherSource × List Request
resolve m w = elim (both w.lat w.lon) [ some place ↦ (some place, w, []) | none ↦ look_up m w ]

abbrev conditions_of : WeatherSource → Current → String → Conditions
conditions_of w c temperature = record {
  temperature_f = temperature;
  humidity_pct = c.humidity;
  observed_at = or_empty c.time;
  place = place_of w;
}

-- what `current` does with the answer to a forecast
abbrev pub remember : Moment → WeatherSource → Option Current → Option Conditions × WeatherSource
remember m w none = (none, w)
remember m w (some c) = elim c.temperature [
  | none ↦ (none, w)
  | some temperature ↦
      let conditions = conditions_of w c temperature in
      (some conditions, record w { cached = some conditions; fetched_at = m.later })
]

-- the request of a forecast, for the coordinates that were resolved
abbrev pub ask :
    Moment
    → Option (String × String) × WeatherSource × List Request
    → Option Conditions × WeatherSource × List Request
ask m (none, w, requests) = (none, w, requests)
ask m (some (lat, lon), w, requests) =
    let (conditions, w') = remember m w (m.forecasts lat lon) in
    (conditions, w', requests ++ forecast lat lon ∷ [])

-- `current`: the conditions, the source after the call, and the requests it made
unfoldable pub current : Moment → WeatherSource → Option Conditions × WeatherSource × List Request
unfolding resolve
current m w = if not (configured w) then (none, w, []) else elim (recent m.now w) [
  | some conditions ↦ (some conditions, w, [])
  | none ↦ ask m (resolve m w)
]

-- calls one after the other: the source after them, and all their requests
abbrev pub run : List Moment → WeatherSource → WeatherSource × List Request
run [] w = (w, [])
run (m ∷ ms) w =
    let (_, w1, first) = current m w in let (w2, rest) = run ms w1 in (w2, first ++ rest)
