-- ===== src/Registry/Lookup.antt =====
-- The searches for a command and for a player.
use open_scum_rcon.Base.{
  ℕ, ◌≡◌, refl, ap, ◌⊎◌, inl, inr, true, Option, none, some, List, [], ◌∷◌, ◌++◌, arith, Bytes,
  same_text, same_text_iff, ◌==◌, Bool-cases, Option-cases, length,
}
use open_scum_rcon.Request.{lower_ascii}
use open_scum_rcon.Registry.Players.{Player}
use open_scum_rcon.Registry.Commands.{Command}
use open_scum_rcon.Registry.Execute.{named, find_command, controller_of}

-- The search ends with the only command of the name.
pub find_command_cases :
    (wanted : Bytes) (entries : List Command) (found : Option Command) (r : Option Command)
    → find_command wanted entries found ≡ inr r
    → ((c : Command) → found ≡ some c → (r ≡ some c) × (named wanted entries ≡ []))
      × ((c : Command) → found ≡ none → r ≡ some c → named wanted entries ≡ c ∷ [])
unfolding find_command named
find_command_cases wanted [] found r e = (λ c f. (cc, refl), λ c f g. cc)
find_command_cases wanted (d ∷ entries) found r e =
    elim (Bool-cases (same_text (lower_ascii d.verb) wanted)) [
      | inr other ↦ rw other (find_command_cases wanted entries found r (rw other at e))
      | inl here ↦ elim (Option-cases found) [
        | inr (c, f) ↦ cc (rw (here, f, find_command) at e)
        | inl f ↦
            let (only, _) =
              find_command_cases wanted entries (some d) r (rw (here, f, find_command) at e) in
            let (last, nothing) = only d refl in
            rw here (λ c g. cc, λ c _ g. let same : d ≡ c = cc in rw (nothing, same) refl)
      ]
    ]

-- The player whose controller is found.
pub controller_of_player :
    (steam_id : Bytes) (online : List Player) (start : ℕ)
    → (controller_of steam_id online start ≡ start)
      ⊎ ((p : Player) × (before after : List Player) × (online ≡ before ++ p ∷ after)
          × (p.id ≡ steam_id)
          × (controller_of steam_id online start ≡ p.controller))
unfolding controller_of
controller_of_player steam_id [] start = inl refl
controller_of_player steam_id (q ∷ online) start = elim (Bool-cases (same_text q.id steam_id)) [
  | inr other ↦ rw other (elim (controller_of_player steam_id online start) [
    | inl e ↦ inl e
    | inr (p, before, after, split, is_id, e) ↦
        inr (p, q ∷ before, after, ap (λ xs. q ∷ xs) split, is_id, e)
  ])
  | inl here ↦ rw here (elim (controller_of_player steam_id online q.controller) [
    | inl e ↦ inr (q, [], online, refl, (same_text_iff q.id steam_id).0 here, e)
    | inr (p, before, after, split, is_id, e) ↦
        inr (p, q ∷ before, after, ap (λ xs. q ∷ xs) split, is_id, e)
  ])
]

pub no_length : (xs : Bytes) → (length xs == 0) ≡ true → xs ≡ []
no_length [] e = refl
no_length (x ∷ xs) e = absurd (ground arith)
