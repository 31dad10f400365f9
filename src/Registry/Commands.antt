-- ===== src/Registry/Commands.antt =====
-- native_module/src/registry_dispatch.cpp: the commands of the registry and the catalogue of them.
use open_scum_rcon.Base.{
  ℕ, suc, Bool, false, not, ◌&&◌, ◌||◌, Option, none, some, List, [], ◌∷◌, ◌++◌, Bytes, text,
  contains_text, less_text, sort_by, decimal, signed_decimal, Result, ok, err, ◌>>=◌, ltb, ◌==◌,
  if◌then◌else◌, length,
}
use mathlib.Core.Option
use open_scum_rcon.Request.{lower_ascii}
use open_scum_rcon.Registry.Engine.{
  Engine, field, int_lt, valid, live, utf8, slot, executable_in_game,
}

pub record Command : Type 0 where
  pub class_of : ℕ
  pub default_object : ℕ
  pub verb : Bytes
  pub required : ℕ
  pub declared : ℕ
  pub repeating : ℕ
  pub enabled : Bool
  pub shipping : Bool
  pub server : Bool
  pub unsupported : Bytes

abbrev pub bare : ℕ → ℕ → Bytes → Command
bare class_of default_object verb = record {
  class_of = class_of;
  default_object = default_object;
  verb = verb;
  required = 0;
  declared = 0;
  repeating = 0;
  enabled = false;
  shipping = false;
  server = false;
  unsupported = [];
}

unfoldable pub seen_class : ℕ → List ℕ → Bool
seen_class cls [] = false
seen_class cls (c ∷ seen) = c == cls || seen_class cls seen

abbrev pub less_verb : Command → Command → Bool
less_verb a b = less_text (lower_ascii a.verb) (lower_ascii b.verb)

abbrev pub push : Option Command → List Command → List Command
push none rest = rest
push (some c) rest = c ∷ rest

abbrev pub flag : Bool → Bytes
flag b = if b then text "1" else text "0"

-- `filter.empty() || lower_ascii(c.verb).find(filter) != npos`
unfoldable pub is_listed : Bytes → Command → Bool
is_listed filter c = length filter == 0 || contains_text filter (lower_ascii c.verb)

unfoldable pub entry : Command → Bytes
entry c =
    field c.verb
    ++ text " | required="
    ++ signed_decimal 32 c.required
    ++ text " declared="
    ++ signed_decimal 32 c.declared
    ++ text " repeating="
    ++ signed_decimal 32 c.repeating
    ++ text " enabled="
    ++ flag c.enabled
    ++ text " shipping="
    ++ flag c.shipping
    ++ text " server="
    ++ flag c.server
    ++ text " | "
    ++ (if length c.unsupported == 0 then text "native_candidate" else c.unsupported)
    ++ b'\n' ∷ []

-- The entries that match, and how many.
unfoldable pub list_entries : Bytes → List Command → Bytes × ℕ
list_entries filter [] = ([], 0)
list_entries filter (c ∷ entries) =
    let (out, matched) = list_entries filter entries in
    if is_listed filter c then (entry c ++ out, suc matched) else (out, matched)

-- Behind the loop.
unfoldable pub sorted : List Command → Result (List Command)
sorted result =
    if length result == 0
    then err (text "command registry contains no valid commands")
    else ok (sort_by less_verb result)

module _ {World Double : Type 0} (engine : Engine World Double) where
  -- Why a command with its metadata cannot be called, empty where it can.
  unfoldable pub classify : World → Command → Bytes
  classify w c =
      if int_lt c.required 0
        || int_lt c.declared c.required
        || int_lt 64 c.declared
        || int_lt c.repeating 0
        || int_lt c.declared c.repeating
      then text "argument_metadata"
      else if not c.enabled || not c.shipping || not c.server
      then text "disabled_or_client_only"
      else if not (slot engine w c.default_object 0x290 == engine.capture_function w)
          || not (executable_in_game engine w (slot engine w c.default_object 0x288))
      then text "native_vtable"
      else []

  -- The metadata of a command, `none` where a property is missing.
  unfoldable pub metadata : World → Command → Option Command
  metadata w c =
      Option.bind (engine.int_value w c.default_object "_numberOfRequiredArguments") (λ required.
        Option.bind (engine.int_value w c.default_object "_numberOfRepeatingArguments")
          (λ repeating.
            Option.bind (engine.array_count w c.default_object "_argumentDescriptions") (λ declared.
              Option.bind (engine.bool_value w c.default_object "_isEnabled") (λ enabled.
                Option.bind (engine.bool_value w c.default_object "_isEnabledInShippingBuild")
                  (λ shipping.
                    Option.bind (engine.bool_value w c.default_object "_shouldExecuteOnServer")
                      (λ server. some (record c {
                        required = required;
                        declared = declared;
                        repeating = repeating;
                        enabled = enabled;
                        shipping = shipping;
                        server = server;
                      })))))))

  -- From the verb on.
  unfoldable pub describe : World → Command → Command
  describe w c = elim (metadata w c) [
    | none ↦ record c { unsupported = text "metadata" }
    | some full ↦ record full { unsupported = classify w full }
  ]

  -- The body of the loop for a class that was not seen before; `none` is a `continue`.
  unfoldable pub command_of : World → ℕ → Result (Option Command)
  command_of w cls =
      let cdo = engine.default_object w cls in
      if not (valid engine w cdo) || not (engine.is_class_default w cdo)
      then ok none
      else elim (engine.string_value w cdo "_verb") [
        | none ↦ err (text "command verb reflection unavailable")
        | some value ↦ utf8 engine value >>= λ verb. ok (some (describe w (bare cls cdo verb)))
      ]

  -- The loop over the classes, with the set of those seen.
  unfoldable pub collect_classes : World → ℕ → List ℕ → List ℕ → Result (List Command)
  collect_classes w command_class [] seen = ok []
  collect_classes w command_class (cls ∷ classes) seen =
      let skipped = collect_classes w command_class classes seen in
      let rest = collect_classes w command_class classes (cls ∷ seen) in
      if not (valid engine w cls)
        || not (engine.is_child_of w cls command_class)
        || seen_class cls seen
      then skipped
      else (command_of w cls >>= λ found. rest >>= λ more. ok (push found more))

  -- The objects of the registry's class.
  unfoldable pub registries : World → ℕ → List ℕ → List ℕ
  registries w cls [] = []
  registries w cls (object ∷ rest) =
      let more = registries w cls rest in
      if live engine w object && engine.is_a w object cls then object ∷ more else more

  -- With the registry.
  unfoldable pub commands_of : World → ℕ → ℕ → Result (List Command)
  commands_of w command_class registry = elim (engine.class_array w registry "_commands") [
    | none ↦ err (text "command registry array signature mismatch")
    | some classes ↦
        if length classes == 0 || ltb 4096 (length classes)
        then err (text "command registry count out of bounds")
        else (collect_classes w command_class classes [] >>= sorted)
  ]

  -- With the objects of the registry's class, of which there must be one.
  unfoldable pub choose_registry : World → ℕ → List ℕ → Result (List Command)
  choose_registry w command_class [] = err (text "command registry is not ready")
  choose_registry w command_class (registry ∷ more) =
      if length more == 0
      then commands_of w command_class registry
      else err (text "ambiguous command registry")

  unfoldable pub commands : World → Result (List Command)
  commands w =
      let registry_class = engine.find_class w "/Script/SCUM.AdminCommandRegistry" in
      let command_class = engine.find_class w "/Script/SCUM.AdminCommand" in
      if registry_class == 0 || command_class == 0
      then err (text "command registry reflection unavailable")
      else choose_registry w command_class (registries w registry_class (engine.objects w))

  unfoldable pub catalogue : World → Bytes → Result Bytes
  catalogue w filter = commands w >>= λ entries.
      let (out, matched) = list_entries filter entries in
      ok (
        out
        ++ text "commands="
        ++ decimal matched
        ++ text " total="
        ++ decimal (length entries)
        ++ text " capture="
        ++ flag (engine.capture_ready w)
        ++ text " build="
        ++ flag (engine.supported_build w)
        ++ text
            "\nNative candidates require an explicit connected executor; individual commands are not all live-tested.")
