-- ===== src/Computer/Tests.antt =====
-- The theorem about key combinations at a concrete one.
use arcc.Base.{◌≡◌, ◌↔◌, refl, list_eq, [], ◌∷◌}
use arcc.Base.Text.{Text, codes}
use arcc.Computer.{ok}
use arcc.Computer.Keys.{meta, unicode, parse_key_combo, parse_key, split_combo}
use arcc.Computer.Laws.{keys_of, modifiers_of, parse_key_combo_iff}

abbrev zoom_in : Text
zoom_in = codes "cmd++"

parse_key_combo_iff_example : (parse_key_combo zoom_in ≡ ok (meta ∷ [], unicode 43)) ↔ (
    (t : Text) × (keys_of (split_combo zoom_in) ≡ t ∷ [])
    × (parse_key t ≡ ok (unicode 43))
    × (meta ∷ [] ≡ modifiers_of (split_combo zoom_in)))
parse_key_combo_iff_example = parse_key_combo_iff zoom_in (meta ∷ []) (unicode 43)

-- The plus sign is a key of its own.
reads_plus : parse_key_combo zoom_in ≡ ok (meta ∷ [], unicode 43)
unfolding parse_key_combo list_eq
reads_plus = refl
