-- ===== src/LiveQuery.antt =====
-- native_module/src/live_query_format.hpp: the text of the weather and of the time of day.
-- A double is a value of a parameter: what the code asks of it, and how a stream prints it.
pub mod Clock
pub mod Json
use open_scum_rcon.Base.{
  ℕ, zero, suc, ◌+◌, ◌-◌, ◌*◌, ◌/◌, ◌%◌, ◌^◌, ◌≤◌, ◌<◌, min, ◌≡◌, refl, sym, ap, ◌∙◌, subst, ◌≢◌,
  ◌↔◌, ◌⊎◌, inl, inr, Bool, true, false, not, ◌&&◌, ◌||◌, Option, none, some, List, [], ◌∷◌, ◌++◌,
  map, append-nil, append_assoc, arith, Bytes, IsBytes, text, same_text, same_text_iff, any_byte,
  all_bytes, starts_with, contains_text, less_text, IsPlain, less_text_asym, less_text_connex,
  insert_by, sort_by, IsSorted, sort_by-IsSorted, sort_by-Perm, decimal, signed_decimal,
  decimal-IsPlain, signed_decimal-IsPlain, Perm, Result, ok, err, ◌>>=◌, ltb, leb, ◌==◌,
  if◌then◌else◌, ltb→lt, ltb→ge, leb→le, ==_iff, Bool-cases, Option-cases, length, get_or, take,
  drop, replicate, length-append, take-append-drop, length-take, length-drop, length-replicate,
  take_all, drop_all, take-append_eq, drop-append_eq, take-append_right, drop-drop, get_or-drop,
  get_or-take, get_or_inside, take-append_left, drop-append_left, drop-append_right,
  get_or-append_left, get_or-append_right, All, All-append, All-append_left, All-append_right,
  All-take, All-drop, All-get_or, All-get_or_lt,
}
use mathlib.Core.Option

pub record Numbers (Double : Type 0) : Type 0 where
  pub is_finite : Double → Bool
  -- `hours < 0 || hours > 24`
  pub is_off_clock : Double → Bool
  -- `static_cast<unsigned>(hours * 60)`
  pub minutes : Double → ℕ
  -- With nine significant digits, and with two digits behind the point.
  pub shown : Double → Bytes
  pub shown_fixed : Double → Bytes

pub record WeatherSnapshot (Double : Type 0) : Type 0 where
  pub time_of_day : Double
  pub wind_azimuth : Double
  pub wind_intensity : Double
  pub rain_intensity : Double
  pub fog_density : Double
  pub time_speed : Option Double
  pub sunrise : Option Double
  pub sunset : Option Double
  pub air_temperature : Option Double
  pub water_temperature : Option Double
  pub cirrostratus : Option Double
  pub cumulonimbus : Option Double
  pub nimbostratus : Option Double
  pub max_wind_speed_kph : Option Double

-- `std::setfill('0') << std::setw(2)`
unfoldable pub two_digits : ℕ → Bytes
two_digits n = if ltb n 10 then b'0' ∷ decimal n else decimal n

module _ {Double : Type 0} (numbers : Numbers Double) where
  open numbers use {is_finite, is_off_clock, minutes, shown}

  unfoldable pub ingame_clock : Double → Result Bytes
  ingame_clock hours =
      if not (is_finite hours) || is_off_clock hours
      then err (text "invalid live time of day")
      else (let minute = minutes hours % 1440 in
          ok (two_digits (minute / 60) ++ b':' ∷ two_digits (minute % 60)))

  -- `optional(key, value)`
  unfoldable pub optional : Bytes → Option Double → Bytes
  optional key value =
      text ",\""
      ++ key
      ++ text "\":"
      ++ elim value [ none ↦ text "null" | some v ↦ if is_finite v then shown v else text "null" ]

  unfoldable pub all_finite : List Double → Bool
  all_finite [] = true
  all_finite (v ∷ vs) = is_finite v && all_finite vs

  -- From the test of the required values on, up to the closing brace.
  unfoldable pub weather_members : WeatherSnapshot Double → Result Bytes
  weather_members s =
      if not
        (all_finite (s.wind_azimuth ∷ s.wind_intensity ∷ s.rain_intensity ∷ s.fog_density ∷ []))
      then err (text "invalid live weather value")
      else ok (
          text ",\"windAzimuth\":"
          ++ shown s.wind_azimuth
          ++ text ",\"windIntensity\":"
          ++ shown s.wind_intensity
          ++ text ",\"rainIntensity\":"
          ++ shown s.rain_intensity
          ++ text ",\"fogDensity\":"
          ++ shown s.fog_density
          ++ optional (text "sunriseTime") s.sunrise
          ++ optional (text "sunsetTime") s.sunset
          ++ optional (text "airTemperature") s.air_temperature
          ++ optional (text "waterTemperature") s.water_temperature
          ++ optional (text "cirrostratusCoverage") s.cirrostratus
          ++ optional (text "cumulonimbusCoverage") s.cumulonimbus
          ++ optional (text "nimbostratusCoverage") s.nimbostratus
          ++ optional (text "maxWindSpeedKph") s.max_wind_speed_kph
          ++ text ",\"windSpeedKph\":null")

  unfoldable pub weather_json : WeatherSnapshot Double → Bool → Result Bytes
  weather_json s time_only = ingame_clock s.time_of_day >>= λ clock.
      (if time_only then ok [] else weather_members s) >>= λ members. ok (
        text "{\"ok\":true,\"source\":\"live_scum_weather_controller\",\"timeOfDay\":"
        ++ shown s.time_of_day
        ++ text ",\"timeOfDayText\":\""
        ++ clock
        ++ text "\""
        ++ optional (text "timeOfDaySpeed") s.time_speed
        ++ members
        ++ text "}")
