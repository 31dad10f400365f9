-- ===== src/Registry/Weather.antt =====
-- native_module/src/registry_dispatch.cpp, `weather`: the active controller and its fields.
use open_scum_rcon.Base.{
  ℕ, Bool, not, ◌&&◌, ◌||◌, Option, none, some, List, [], ◌∷◌, Bytes, text, Result, ok, err, ◌>>=◌,
  ◌==◌, if◌then◌else◌, length,
}
use mathlib.Core.Option
use Prim.Native.String.{String}
use open_scum_rcon.LiveQuery.{Numbers, WeatherSnapshot, weather_json}
use open_scum_rcon.Registry.Engine.{Engine, live, object_property}

-- The insertion into a set of pointers.
unfoldable pub insert_once : ℕ → List ℕ → List ℕ
insert_once p [] = p ∷ []
insert_once p (q ∷ qs) = let rest = insert_once p qs in if p == q then q ∷ qs else q ∷ rest

module _ {World Double : Type 0} (engine : Engine World Double) (numbers : Numbers Double) where
  unfoldable pub live_float : World → ℕ → String → Option Double
  live_float w object name =
      Option.bind (engine.float_value w object name)
        (λ value. if numbers.is_finite value then some value else none)

  unfoldable pub required_field : World → ℕ → String → Result Double
  required_field w active name = elim (live_float w active name) [
    | none ↦ err (text "required live weather field unavailable")
    | some value ↦ ok value
  ]

  -- The callback over the objects.
  unfoldable pub candidates : World → ℕ → ℕ → List ℕ → List ℕ → List ℕ
  candidates w settings_class weather_class [] found = found
  candidates w settings_class weather_class (object ∷ rest) found =
      let active = object_property engine w object "WeatherController2" in
      candidates w settings_class weather_class rest (
        if live engine w object
          && engine.is_a w object settings_class
          && live engine w active
          && engine.is_a w active weather_class
        then insert_once active found
        else found)

  -- The time alone; the fields that are not read are those of a zeroed snapshot.
  unfoldable pub time_snapshot : Double → World → ℕ → Result (WeatherSnapshot Double)
  time_snapshot zeroed w active = required_field w active "_timeOfDay" >>= λ time_of_day.
      ok (record {
        time_of_day = time_of_day;
        wind_azimuth = zeroed;
        wind_intensity = zeroed;
        rain_intensity = zeroed;
        fog_density = zeroed;
        time_speed = live_float w active "_timeOfDaySpeed";
        sunrise = none;
        sunset = none;
        air_temperature = none;
        water_temperature = none;
        cirrostratus = none;
        cumulonimbus = none;
        nimbostratus = none;
        max_wind_speed_kph = none;
      })

  unfoldable pub full_snapshot :
      World → ℕ → WeatherSnapshot Double → Result (WeatherSnapshot Double)
  full_snapshot w active s = required_field w active "_windAzimuth" >>= λ wind_azimuth.
      required_field w active "_windIntensity" >>= λ wind_intensity.
      required_field w active "_rainIntensity" >>= λ rain_intensity.
      required_field w active "_fogDensity" >>= λ fog_density. ok (record s {
        wind_azimuth = wind_azimuth;
        wind_intensity = wind_intensity;
        rain_intensity = rain_intensity;
        fog_density = fog_density;
        sunrise = live_float w active "_sunriseTime";
        sunset = live_float w active "_sunsetTime";
        air_temperature = live_float w active "_baseAirTemperature";
        water_temperature = live_float w active "_waterTemperature";
        cirrostratus = live_float w active "_cirrostratusCoverage";
        cumulonimbus = live_float w active "_cumulonimbusCoverage";
        nimbostratus = live_float w active "_nimbostratusCoverage";
        max_wind_speed_kph = live_float w active "_maxWindSpeedKph";
      })

  -- With the active controller; `zeroed` is what `WeatherSnapshot snapshot{}` leaves in a double.
  unfoldable pub weather_of : Double → World → ℕ → Bool → Result Bytes
  weather_of zeroed w active time_only = time_snapshot zeroed w active >>= λ s.
      (if time_only then ok s else full_snapshot w active s) >>= λ snapshot.
      weather_json numbers snapshot time_only

  unfoldable pub weather : Double → World → Bool → Result Bytes
  weather zeroed w time_only =
      let settings_class = engine.find_class w "/Script/SCUM.ConZWorldSettings" in
      let weather_class = engine.find_class w "/Script/SCUM.WeatherController2" in
      if not (engine.supported_build w)
      then ok (text "error: live weather unavailable for this SCUM build")
      else if settings_class == 0 || weather_class == 0
      then ok (text "error: weather reflection unavailable")
      else elim (candidates w settings_class weather_class (engine.objects w) []) [
        | [] ↦ ok (text "error: active weather controller not ready")
        | active ∷ more ↦
            if length more == 0
            then weather_of zeroed w active time_only
            else ok (text "error: ambiguous active weather controller")
      ]
