-- ===== src/Response.antt =====
-- native_module/src/response_buffer.hpp, class ResponseScope: collects the replies that a native
-- command sends while it runs. `current` with its chain of `previous` is a list, innermost first;
-- the constructor and the destructor are `enter` and `leave`. A command pointer is a number, null
-- is 0. `can_hold n` says whether std::string gets the memory for n bytes; if not, it throws.
pub mod Collect
pub mod Replies
pub mod Nesting
pub mod Receive
pub mod Strings
pub mod Received
use open_scum_rcon.Base.{
  ℕ, zero, suc, ◌+◌, ◌-◌, ◌*◌, ◌/◌, ◌%◌, ◌^◌, ◌≤◌, ◌<◌, min, ◌≡◌, refl, sym, ap, ◌∙◌, subst, ◌≢◌,
  ◌↔◌, ◌⊎◌, inl, inr, Bool, true, false, not, ◌&&◌, ◌||◌, Option, none, some, List, [], ◌∷◌, ◌++◌,
  map, append-nil, append_assoc, arith, Bytes, IsBytes, text, same_text, same_text_iff, any_byte,
  all_bytes, ltb, leb, ◌==◌, if◌then◌else◌, ltb→lt, ltb→ge, leb→le, ==_iff, Bool-cases,
  Option-cases, length, get_or, take, drop, replicate, length-append, take-append-drop, length-take,
  length-drop, length-replicate, take_all, drop_all, take-append_eq, drop-append_eq,
  take-append_right, drop-drop, get_or-drop, drop-append_right, get_or-append_left,
  get_or-append_right, All, All-append, All-append_left, All-append_right, All-take, All-drop,
  All-get_or, All-get_or_lt,
}
use open_scum_rcon.Utf8.{utf8_prefix_size}

abbrev pub max_bytes : ℕ
max_bytes = 65536

abbrev pub max_messages : ℕ
max_messages = 128

pub record ResponseScope : Type 0 where
  pub command : ℕ
  pub output : Bytes
  pub count : ℕ
  pub cut : Bool
  pub failed : Bool

abbrev pub Scopes : Type 0
Scopes = List ResponseScope

abbrev pub fresh : ℕ → ResponseScope
fresh key = record { command = key; output = []; count = 0; cut = false; failed = false }

unfoldable pub enter : ℕ → Scopes → Scopes
enter key current = fresh key ∷ current

unfoldable pub leave : Scopes → Scopes
leave [] = []
leave (scope ∷ previous) = previous

unfoldable pub matches : ℕ → Scopes → Bool
matches key [] = false
matches key (scope ∷ previous) = not (key == 0) && scope.command == key

unfoldable pub failure : Scopes → Scopes
failure [] = []
failure (scope ∷ previous) = record scope { failed = true } ∷ previous

-- `output.back()` of an output that is not empty.
abbrev pub back : Bytes → ℕ
back output = get_or output (length output - 1) 0

-- Whether a line break goes between what was collected and the next message.
unfoldable pub needs_break : Bytes → Bytes → Bool
needs_break output message =
    not (length output == 0) && not (length message == 0) && not (back output == b'\n')

-- From `available` on.
unfoldable pub append_prefix : (ℕ → Bool) → Bytes → ResponseScope → ResponseScope
append_prefix can_hold message scope =
    let available = max_bytes - length scope.output in
    let n = utf8_prefix_size message available in
    if n == 0 || can_hold (length scope.output + n)
    then record scope {
      output = scope.output ++ take n message;
      cut = scope.cut || not (n == length message);
    }
    else record scope { failed = true }

-- The `try` block, on the scope that matched.
unfoldable pub collect : (ℕ → Bool) → Bytes → ResponseScope → ResponseScope
unfolding needs_break
collect can_hold message scope =
    let counted = record scope { count = scope.count + 1 } in
    if ltb max_messages counted.count
    then record counted { cut = true }
    else if needs_break scope.output message
    then (if length scope.output == max_bytes
        then record counted { cut = true }
        else if can_hold (length scope.output + 1)
        then append_prefix can_hold message (record counted { output = scope.output ++ b'\n' ∷ [] })
        else record counted { failed = true })
    else append_prefix can_hold message counted

unfoldable pub collect_first : (ℕ → Bool) → Bytes → Scopes → Scopes
collect_first can_hold message [] = []
collect_first can_hold message (scope ∷ previous) = collect can_hold message scope ∷ previous

unfoldable pub accept : (ℕ → Bool) → ℕ → Bytes → Scopes → Bool × Scopes
unfolding matches collect_first
accept can_hold key message current =
    if not (matches key current)
    then (false, current)
    else (true, collect_first can_hold message current)
