-- ===== src/Registry/Callable.antt =====
-- Which commands of the registry may be called, and with how many arguments.
use open_scum_rcon.Base.{
  ℕ, ◌-◌, ◌%◌, ◌^◌, ◌≤◌, ◌<◌, ◌≡◌, ◌↔◌, ◌⊎◌, inl, inr, true, false, not, ◌&&◌, ◌||◌, Option, none,
  some, List, [], ◌∷◌, arith, text, less_text_asym, sort_by, IsSorted, sort_by-IsSorted,
  length-sort_by, All-sort_by, ok, bind-inversion, ltb, ◌==◌, Bool-cases, Option-inversion,
  Option-cases, length, All,
}
use Prim.Native.String.{String}
use open_scum_rcon.Request.{lower_ascii}
use open_scum_rcon.Registry.Engine.{Engine, int_lt, valid, utf8, slot, executable_in_game}
use open_scum_rcon.Registry.Commands.{
  Command, bare, seen_class, less_verb, classify, metadata, describe, command_of, push,
  collect_classes, registries, commands_of, commands, sorted, choose_registry,
}
use open_scum_rcon.Registry.Execute.{count_refused}

-- The argument counts of a command, as numbers.
pub record IsCounted (c : Command) : Type 0 where
  pub required : c.required ≤ c.declared
  pub declared : c.declared ≤ 64
  pub repeating : c.repeating ≤ c.declared

metadata_accepted :
    (required declared repeating : ℕ)
    → required < 2 ^ 32
    → declared < 2 ^ 32
    → repeating < 2 ^ 32
    → (int_lt required 0
        || int_lt declared required
        || int_lt 64 declared
        || int_lt repeating 0
        || int_lt declared repeating)
      ≡ false
    → (required ≤ declared) × (declared ≤ 64) × (repeating ≤ declared)
unfolding int_lt
metadata_accepted required declared repeating hr hd hp e = ground arith

int_lt_iff : (a b : ℕ) → a < 2 ^ 31 → b < 2 ^ 31 → (int_lt a b ≡ true) ↔ (a < b)
unfolding int_lt
int_lt_iff a b ha hb = ground arith

-- The numbers of arguments that a command of the registry takes: at least the required ones, and
-- either no more than the declared ones, or further ones in whole groups of the repeating ones.
pub count_refused_iff :
    (count : ℕ) (c : Command)
    → count < 2 ^ 31
    → IsCounted c
    → (count_refused count c ≡ false) ↔ (
        (c.required ≤ count)
        × ((count ≤ c.declared)
            ⊎ ((1 ≤ c.repeating)
                × (c.declared < count)
                × ((count - c.declared) % c.repeating ≡ 0))))
unfolding count_refused
count_refused_iff count c fits counted = ground (
  arith,
  counted.required,
  counted.declared,
  int_lt_iff count c.required fits (omega (arith, counted.required, counted.declared)),
  int_lt_iff c.declared count (omega (arith, counted.declared)) fits,
)

module _ {World Double : Type 0} (engine : Engine World Double) (w : World)
    -- An int32 has 32 bits.
    (ints_fit : (object : ℕ) (name : String) (n : ℕ)
      → engine.int_value w object name ≡ some n
      → n < 2 ^ 32)
    (counts_fit : (object : ℕ) (name : String) (n : ℕ)
      → engine.array_count w object name ≡ some n
      → n < 2 ^ 32) where
  -- What the catalogue of the registry promises of a command that is a native candidate.
  pub record IsCandidate (c : Command) : Type 0 where
    pub counted : IsCounted c
    pub on_server : (c.enabled && c.shipping && c.server) ≡ true
    pub sends : slot engine w c.default_object 0x290 ≡ engine.capture_function w
    pub runs : executable_in_game engine w (slot engine w c.default_object 0x288) ≡ true

  abbrev Fits : Command → Type 0
  Fits c = (c.required < 2 ^ 32) × (c.declared < 2 ^ 32) × (c.repeating < 2 ^ 32)

  classify-IsCandidate : (c : Command) → Fits c → classify engine w c ≡ [] → IsCandidate c
  unfolding classify text
  classify-IsCandidate c (hr, hd, hp) e =
      elim (Bool-cases (
        int_lt c.required 0
        || int_lt c.declared c.required
        || int_lt 64 c.declared
        || int_lt c.repeating 0
        || int_lt c.declared c.repeating)) [
          | inl odd ↦ cc (rw odd at e)
          | inr sound ↦ elim (Bool-cases (not c.enabled || not c.shipping || not c.server)) [
            | inl off ↦ cc (rw (sound, off) at e)
            | inr on ↦
                elim (Bool-cases (
                  not (slot engine w c.default_object 0x290 == engine.capture_function w)
                  || not (executable_in_game engine w (slot engine w c.default_object 0x288)))) [
                    | inl foreign ↦ cc (rw (sound, on, foreign) at e)
                    | inr native ↦
                        let (required, declared, repeating) =
                          metadata_accepted c.required c.declared c.repeating hr hd hp sound in
                        record {
                          counted = record {
                            required = required;
                            declared = declared;
                            repeating = repeating;
                          };
                          on_server = ground arith;
                          sends = ground arith;
                          runs = ground arith;
                        }
                  ]
          ]
        ]

  metadata-Fits : (c full : Command) → metadata engine w c ≡ some full → Fits full
  unfolding metadata
  metadata-Fits c full e =
      let (required, a, e) = Option-inversion _ _ e in
      let (repeating, b, e) = Option-inversion _ _ e in
      let (declared, d, e) = Option-inversion _ _ e in
      let (enabled, _, e) = Option-inversion _ _ e in
      let (shipping, _, e) = Option-inversion _ _ e in
      let (server, _, e) = Option-inversion _ _ e in
      let same : record c {
        required = required;
        declared = declared;
        repeating = repeating;
        enabled = enabled;
        shipping = shipping;
        server = server;
      }
          ≡ full =
        cc in
      rw (← same) (ints_fit _ _ required a, counts_fit _ _ declared d, ints_fit _ _ repeating b)

  abbrev pub Supported : Command → Type 0
  Supported c = c.unsupported ≡ [] → IsCandidate c

  describe-Supported : (c : Command) → Supported (describe engine w c)
  unfolding describe text
  describe-Supported c e = elim (Option-cases (metadata engine w c)) [
    | inl missing ↦ cc (rw (missing, describe) at e)
    | inr (full, found) ↦
        let empty : classify engine w full ≡ [] = rw (found, describe) at e in
        let candidate = classify-IsCandidate full (metadata-Fits c full found) empty in
        rw (found, describe)
          (record {
            counted = record {
              required = candidate.counted.required;
              declared = candidate.counted.declared;
              repeating = candidate.counted.repeating;
            };
            on_server = candidate.on_server;
            sends = candidate.sends;
            runs = candidate.runs;
          })
  ]

  -- What holds of the option that the body of the loop gives.
  abbrev Each : Option Command → Type 0
  Each none = Unit
  Each (some c) = Supported c

  command_of-Each :
      (cls : ℕ) (found : Option Command) → command_of engine w cls ≡ ok found → Each found
  unfolding command_of
  command_of-Each cls found e =
      let cdo = engine.default_object w cls in
      elim (Bool-cases (not (valid engine w cdo) || not (engine.is_class_default w cdo))) [
        | inl odd ↦ let same : none ≡ found = cc (rw odd at e) in rw (← same) tt
        | inr sound ↦ elim (Option-cases (engine.string_value w cdo "_verb")) [
          | inl nameless ↦ cc (rw (sound, nameless, command_of) at e)
          | inr (value, named) ↦
              let (verb, last, _) =
                bind-inversion (utf8 engine value) _ (rw (sound, named, command_of) at e) in
              let same : some (describe engine w (bare cls cdo verb)) ≡ found = cc in
              rw (← same) (describe-Supported (bare cls cdo verb))
        ]
      ]

  push-Supported :
      (found : Option Command) (more : List Command)
      → Each found
      → All Supported more
      → All Supported (push found more)
  push-Supported none more one rest = rest
  push-Supported (some c) more one rest = (one, rest)

  collect_classes-Supported :
      (command_class : ℕ) (classes seen : List ℕ) (result : List Command)
      → collect_classes engine w command_class classes seen ≡ ok result
      → All Supported result
  unfolding collect_classes
  collect_classes-Supported command_class [] seen result e =
      let same : [] ≡ result = cc in rw (← same) tt
  collect_classes-Supported command_class (cls ∷ classes) seen result e =
      elim (Bool-cases (
        not (valid engine w cls)
        || not (engine.is_child_of w cls command_class)
        || seen_class cls seen)) [
          | inl skipped ↦
              collect_classes-Supported command_class classes seen result
                (rw (skipped, collect_classes) at e)
          | inr taken ↦
              let (found, last, one) =
                bind-inversion (command_of engine w cls) _ (rw (taken, collect_classes) at e) in
              let (more, end, others) = bind-inversion _ _ last in
              let same : push found more ≡ result = cc in
              rw (← same) (
                push-Supported found more (command_of-Each cls found one)
                  (collect_classes-Supported command_class classes (cls ∷ seen) more others))
        ]

  Promised : List Command → Type 0
  Promised entries = IsSorted less_verb entries × (1 ≤ length entries) × All Supported entries

  less_verb_asym : (a b : Command) → less_verb a b ≡ true → less_verb b a ≡ false
  less_verb_asym a b e = less_text_asym (lower_ascii a.verb) (lower_ascii b.verb) e

  commands_of-Promised :
      (command_class registry : ℕ) (entries : List Command)
      → commands_of engine w command_class registry ≡ ok entries
      → Promised entries
  unfolding commands_of sorted Promised
  commands_of-Promised command_class registry entries e =
      elim (Option-cases (engine.class_array w registry "_commands")) [
        | inl missing ↦ cc (rw (missing, commands_of) at e)
        | inr (classes, found) ↦
            elim (Bool-cases (length classes == 0 || ltb 4096 (length classes))) [
              | inl odd ↦ cc (rw (found, odd, commands_of) at e)
              | inr fits ↦
                  let (result, last, collected) =
                    bind-inversion (collect_classes engine w command_class classes []) sorted
                      (rw (found, fits, commands_of) at e) in
                  elim (Bool-cases (length result == 0)) [
                    | inl nothing ↦ cc (rw nothing at last)
                    | inr some_there ↦
                        let same : sort_by less_verb result ≡ entries =
                          cc (rw some_there at last) in
                        rw (← same) (
                          sort_by-IsSorted less_verb less_verb_asym result,
                          ground (arith, length-sort_by less_verb result),
                          All-sort_by less_verb Supported result
                              (collect_classes-Supported command_class classes [] result collected),
                        )
                  ]
            ]
      ]

  choose_registry-Promised :
      (command_class : ℕ) (entries : List Command) (found : List ℕ)
      → choose_registry engine w command_class found ≡ ok entries
      → Promised entries
  unfolding choose_registry
  choose_registry-Promised command_class entries [] e = cc
  choose_registry-Promised command_class entries (registry ∷ more) e =
      elim (Bool-cases (length more == 0)) [
        | inl only ↦ commands_of-Promised command_class registry entries (rw only at e)
        | inr several ↦ cc (rw several at e)
      ]

  -- The commands are sorted by their names without regard to case, there is at least one, and each
  -- that is not marked as unsupported is a candidate: its argument counts fit each other and are
  -- at most 64, it is enabled for a shipping build on the server, and its entries for sending
  -- and for executing are the hooked function and a function of the game.
  pub commands-IsCandidate :
      (entries : List Command)
      → commands engine w ≡ ok entries
      → IsSorted less_verb entries × (1 ≤ length entries) × All Supported entries
  unfolding commands Promised
  commands-IsCandidate entries e =
      let registry_class = engine.find_class w "/Script/SCUM.AdminCommandRegistry" in
      let command_class = engine.find_class w "/Script/SCUM.AdminCommand" in
      elim (Bool-cases (registry_class == 0 || command_class == 0)) [
        | inl missing ↦ cc (rw missing at e)
        | inr there ↦
            choose_registry-Promised command_class entries
              (registries engine w registry_class (engine.objects w)) (rw there at e)
      ]
