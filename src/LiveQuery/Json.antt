-- ===== src/LiveQuery/Json.antt =====
-- The JSON text of the weather against its members.
use open_scum_rcon.Base.{
  ◌≡◌, refl, ap, inl, inr, Bool, true, false, Option, none, some, List, [], ◌∷◌, ◌++◌, append_assoc,
  Bytes, text, Result, ok, err, if◌then◌else◌, Bool-cases,
}
use open_scum_rcon.LiveQuery.{
  Numbers, WeatherSnapshot, ingame_clock, optional, all_finite, weather_members, weather_json,
}

-- A member of a JSON object: its key, and the text of its value.
abbrev pub Member : Type 0
Member = Bytes × Bytes

unfoldable pub member : Member → Bytes
member (key, value) = b'"' ∷ (key ++ b'"' ∷ b':' ∷ value)

unfoldable pub more_members : List Member → Bytes
more_members [] = b'}' ∷ []
more_members (m ∷ ms) = b',' ∷ (member m ++ more_members ms)

-- An object of at least one member.
unfoldable pub object : Member → List Member → Bytes
object m ms = b'{' ∷ (member m ++ more_members ms)

abbrev pub quoted : Bytes → Bytes
quoted value = b'"' ∷ (value ++ b'"' ∷ [])

module _ {Double : Type 0} (numbers : Numbers Double) where
  open numbers use {is_finite, is_off_clock, minutes, shown}

  -- A value that may be missing or not finite.
  unfoldable pub or_null : Option Double → Bytes
  or_null none = text "null"
  or_null (some v) = if is_finite v then shown v else text "null"

  abbrev pub time_members : WeatherSnapshot Double → Bytes → List Member
  time_members s clock =
      (text "source", quoted (text "live_scum_weather_controller"))
      ∷ (text "timeOfDay", shown s.time_of_day)
      ∷ (text "timeOfDayText", quoted clock)
      ∷ (text "timeOfDaySpeed", or_null s.time_speed)
      ∷ []

  abbrev pub full_members : WeatherSnapshot Double → List Member
  full_members s =
      (text "windAzimuth", shown s.wind_azimuth)
      ∷ (text "windIntensity", shown s.wind_intensity)
      ∷ (text "rainIntensity", shown s.rain_intensity)
      ∷ (text "fogDensity", shown s.fog_density)
      ∷ (text "sunriseTime", or_null s.sunrise)
      ∷ (text "sunsetTime", or_null s.sunset)
      ∷ (text "airTemperature", or_null s.air_temperature)
      ∷ (text "waterTemperature", or_null s.water_temperature)
      ∷ (text "cirrostratusCoverage", or_null s.cirrostratus)
      ∷ (text "cumulonimbusCoverage", or_null s.cumulonimbus)
      ∷ (text "nimbostratusCoverage", or_null s.nimbostratus)
      ∷ (text "maxWindSpeedKph", or_null s.max_wind_speed_kph)
      ∷ (text "windSpeedKph", text "null")
      ∷ []

  optional-or_null :
      (key : Bytes) (value : Option Double)
      → optional numbers key value ≡ text ",\"" ++ key ++ text "\":" ++ or_null value
  unfolding optional or_null
  optional-or_null key none = refl
  optional-or_null key (some v) = refl

  weather_json-time :
      (s : WeatherSnapshot Double) (clock : Bytes)
      → ingame_clock numbers s.time_of_day ≡ ok clock
      → weather_json numbers s true ≡ ok (object (text "ok", text "true") (time_members s clock))
  unfolding weather_json text object more_members member
  weather_json-time s clock e =
      rw (e, optional-or_null (text "timeOfDaySpeed") s.time_speed) (ap ok (simp append_assoc))

  abbrev required_values : WeatherSnapshot Double → List Double
  required_values s = s.wind_azimuth ∷ s.wind_intensity ∷ s.rain_intensity ∷ s.fog_density ∷ []

  weather_json-full :
      (s : WeatherSnapshot Double) (clock : Bytes)
      → ingame_clock numbers s.time_of_day ≡ ok clock
      → all_finite numbers (required_values s) ≡ true
      → weather_json numbers s false
        ≡ ok (object (text "ok", text "true") (time_members s clock ++ full_members s))
  unfolding weather_json weather_members text object more_members member
  weather_json-full s clock e finite =
      rw
        (
          e,
          finite,
          optional-or_null (text "timeOfDaySpeed") s.time_speed,
          optional-or_null (text "sunriseTime") s.sunrise,
          optional-or_null (text "sunsetTime") s.sunset,
          optional-or_null (text "airTemperature") s.air_temperature,
          optional-or_null (text "waterTemperature") s.water_temperature,
          optional-or_null (text "cirrostratusCoverage") s.cirrostratus,
          optional-or_null (text "cumulonimbusCoverage") s.cumulonimbus,
          optional-or_null (text "nimbostratusCoverage") s.nimbostratus,
          optional-or_null (text "maxWindSpeedKph") s.max_wind_speed_kph,
        )
        (ap ok (simp append_assoc))

  -- By the clock, whether the time alone is asked for, and whether the values are finite.
  unfoldable pub weather_reply : WeatherSnapshot Double → Bytes → Bool → Bool → Result Bytes
  weather_reply s clock true finite = ok (object (text "ok", text "true") (time_members s clock))
  weather_reply s clock false true =
      ok (object (text "ok", text "true") (time_members s clock ++ full_members s))
  weather_reply s clock false false = err (text "invalid live weather value")

  -- The reply as an object, by the text of the clock, or why there is none.
  unfoldable pub object_at : WeatherSnapshot Double → Bool → Result Bytes → Result Bytes
  object_at s time_only (err why) = err why
  object_at s time_only (ok clock) =
      weather_reply s clock time_only (all_finite numbers (required_values s))

  unfoldable pub weather_object : WeatherSnapshot Double → Bool → Result Bytes
  weather_object s time_only = object_at s time_only (ingame_clock numbers s.time_of_day)

  no_clock :
      (s : WeatherSnapshot Double) (time_only : Bool) (why : Bytes)
      → ingame_clock numbers s.time_of_day ≡ err why
      → weather_json numbers s time_only ≡ err why
  unfolding weather_json
  no_clock s time_only why e = rw e refl

  weather_json-odd :
      (s : WeatherSnapshot Double) (clock : Bytes)
      → ingame_clock numbers s.time_of_day ≡ ok clock
      → all_finite numbers (required_values s) ≡ false
      → weather_json numbers s false ≡ err (text "invalid live weather value")
  unfolding weather_json weather_members
  weather_json-odd s clock e odd = rw (e, odd) refl

  with_clock :
      (s : WeatherSnapshot Double) (time_only : Bool) (clock : Bytes)
      → ingame_clock numbers s.time_of_day ≡ ok clock
      → weather_json numbers s time_only
        ≡ weather_reply s clock time_only (all_finite numbers (required_values s))
  unfolding weather_reply
  with_clock s true clock e = weather_json-time s clock e
  with_clock s false clock e = elim (Bool-cases (all_finite numbers (required_values s))) [
    | inl finite ↦ rw finite (weather_json-full s clock e finite)
    | inr odd ↦ rw odd (weather_json-odd s clock e odd)
  ]

  weather_json-object_at :
      (s : WeatherSnapshot Double) (time_only : Bool) (clock : Result Bytes)
      → ingame_clock numbers s.time_of_day ≡ clock
      → weather_json numbers s time_only ≡ object_at s time_only clock
  unfolding object_at
  weather_json-object_at s time_only (err why) e = no_clock s time_only why e
  weather_json-object_at s time_only (ok clock) e = with_clock s time_only clock e

  -- The reply about the weather is a JSON object: of the time's members, and, unless the request was for
  -- the time alone, of the weather's members. A value that is missing or not finite is null where
  -- it is optional, and an error where it is required.
  pub weather_json-object :
      (s : WeatherSnapshot Double) (time_only : Bool)
      → weather_json numbers s time_only ≡ weather_object s time_only
  unfolding weather_object
  weather_json-object s time_only =
      weather_json-object_at s time_only (ingame_clock numbers s.time_of_day) refl
