-- ===== src/Computer/Keys.antt =====
-- crates/arcc-core/src/computer/input.rs: reading a combination of keys such as `cmd+shift+4`.
use arcc.Base.{
  ℕ, ◌+◌, not, ◌&&◌, List, [], ◌∷◌, ◌++◌, Option, none, some, list_Eq, leb, nat_eq, if◌then◌else◌,
  map, keep_if,
}
use arcc.Base.Text.{Text, codes, is_empty, trim}
use arcc.Base.Maps.{Map, get}
use arcc.Computer.{Result, ok, err, invalid_args}

-- The keys of enigo that the source names.
pub data Key : Type 0 where
  meta control alt shift : Key
  return escape tab space backspace delete home end page_up page_down : Key
  up_arrow down_arrow left_arrow right_arrow caps_lock : Key
  f1 f2 f3 f4 f5 f6 f7 f8 f9 f10 f11 f12 : Key
  unicode : ℕ → Key

unfoldable pub to_ascii_lowercase : Text → Text
to_ascii_lowercase s = map (λ c. if leb 65 c && leb c 90 then c + 32 else c) s

-- The scan of `split_combo`: the tokens so far, and the current one.
unfoldable pub split_plus : List Text → Text → Text → List Text
unfolding is_empty
split_plus tokens current [] = if not (is_empty current) then tokens ++ (current ∷ []) else tokens
split_plus tokens current (c ∷ s) =
    if nat_eq c 43
    then (if is_empty current
        then split_plus (tokens ++ ((43 ∷ []) ∷ [])) [] s
        else split_plus (tokens ++ (current ∷ [])) [] s)
    else split_plus tokens (current ++ (c ∷ [])) s

unfoldable pub split_combo : Text → List Text
unfolding split_plus trim is_empty
split_combo combo = keep_if (λ t. not (is_empty t)) (map trim (split_plus [] [] (trim combo)))

unfoldable pub modifiers : Map Text Key
modifiers =
    (codes "cmd", meta)
    ∷ (codes "command", meta)
    ∷ (codes "meta", meta)
    ∷ (codes "super", meta)
    ∷ (codes "win", meta)
    ∷ (codes "ctrl", control)
    ∷ (codes "control", control)
    ∷ (codes "alt", alt)
    ∷ (codes "option", alt)
    ∷ (codes "opt", alt)
    ∷ (codes "shift", shift)
    ∷ []

unfoldable pub modifier_key : Text → Option Key
unfolding modifiers to_ascii_lowercase get
modifier_key token = get (to_ascii_lowercase token) modifiers

unfoldable pub named_keys : Map Text Key
named_keys =
    (codes "return", return)
    ∷ (codes "enter", return)
    ∷ (codes "escape", escape)
    ∷ (codes "esc", escape)
    ∷ (codes "tab", tab)
    ∷ (codes "space", space)
    ∷ (codes "spacebar", space)
    ∷ (codes "backspace", backspace)
    ∷ (codes "delete", delete)
    ∷ (codes "del", delete)
    ∷ (codes "home", home)
    ∷ (codes "end", end)
    ∷ (codes "pageup", page_up)
    ∷ (codes "pgup", page_up)
    ∷ (codes "pagedown", page_down)
    ∷ (codes "pgdn", page_down)
    ∷ (codes "up", up_arrow)
    ∷ (codes "arrowup", up_arrow)
    ∷ (codes "uparrow", up_arrow)
    ∷ (codes "down", down_arrow)
    ∷ (codes "arrowdown", down_arrow)
    ∷ (codes "downarrow", down_arrow)
    ∷ (codes "left", left_arrow)
    ∷ (codes "arrowleft", left_arrow)
    ∷ (codes "leftarrow", left_arrow)
    ∷ (codes "right", right_arrow)
    ∷ (codes "arrowright", right_arrow)
    ∷ (codes "rightarrow", right_arrow)
    ∷ (codes "capslock", caps_lock)
    ∷ (codes "f1", f1)
    ∷ (codes "f2", f2)
    ∷ (codes "f3", f3)
    ∷ (codes "f4", f4)
    ∷ (codes "f5", f5)
    ∷ (codes "f6", f6)
    ∷ (codes "f7", f7)
    ∷ (codes "f8", f8)
    ∷ (codes "f9", f9)
    ∷ (codes "f10", f10)
    ∷ (codes "f11", f11)
    ∷ (codes "f12", f12)
    ∷ (codes "plus", unicode 43)
    ∷ (codes "minus", unicode 45)
    ∷ (codes "comma", unicode 44)
    ∷ (codes "period", unicode 46)
    ∷ (codes "dot", unicode 46)
    ∷ (codes "slash", unicode 47)
    ∷ (codes "semicolon", unicode 59)
    ∷ (codes "quote", unicode 39)
    ∷ (codes "backtick", unicode 96)
    ∷ (codes "grave", unicode 96)
    ∷ (codes "backslash", unicode 92)
    ∷ []

unfoldable pub key_or_error : Text → Option Key → Result Key
key_or_error other (some k) = ok k
key_or_error other none = err (invalid_args (codes "unknown key '" ++ other ++ codes "' in combo"))

unfoldable pub parse_key : Text → Result Key
unfolding named_keys to_ascii_lowercase key_or_error get
parse_key (c ∷ []) = ok (unicode c)
parse_key token =
    key_or_error (to_ascii_lowercase token) (get (to_ascii_lowercase token) named_keys)

-- The end of the loop's use of a token that is a key: the key, or an error.
unfoldable pub take_key : Text → Option Key → Result Key → Result Key
take_key combo already (err e) = err e
take_key combo (some _) (ok parsed) =
    err
      (invalid_args (codes "key combo '" ++ combo ++ codes "' has more than one non-modifier key"))
take_key combo none (ok parsed) = ok parsed

unfoldable pub combine : Text → List Key → Option Key → List Text → Result (List Key × Key)
unfolding modifier_key parse_key take_key
combine combo ms (some k) [] = ok (ms, k)
combine combo ms none [] =
    err (invalid_args (codes "key combo '" ++ combo ++ codes "' does not contain a key"))
combine combo ms k (token ∷ tokens) = elim (modifier_key token) [
  | some m ↦ combine combo (ms ++ (m ∷ [])) k tokens
  | none ↦ elim (take_key combo k (parse_key token)) [
    | ok parsed ↦ combine combo ms (some parsed) tokens
    | err e ↦ err e
  ]
]

unfoldable pub parse_key_combo : Text → Result (List Key × Key)
unfolding combine split_combo
parse_key_combo combo = combine combo [] none (split_combo combo)
