-- ===== src/Feishu/Post.antt =====
-- crates/arcc-server/src/feishu/webhook.rs and card.rs: what is written into a chat, and to whom.
use arcc.Base.{ℕ, Bool, true, [], ◌∷◌, ◌++◌, ◌==◌, list_Eq, if◌then◌else◌, nat_eq}
use arcc.Base.Text.{Text, codes, trim, is_empty}
use arcc.Model.Json.{Value, bool, string, obj, arr, str, ◌:=◌}

unfoldable pub post_md : Text → Value
unfolding trim is_empty
post_md md_text =
    let safe_text = if is_empty (trim md_text) then codes "(no content)" else md_text in
    obj (
      ("zh_cn"
        := obj (
            ("title" := str "ARCC")
            ∷ ("content"
                := arr
                    (arr (obj (("tag" := str "md") ∷ ("text" := string safe_text) ∷ []) ∷ []) ∷ []))
            ∷ []))
      ∷ [])

abbrev pub is_group : Text → Bool
is_group chat_type = chat_type == codes "group"

unfoldable pub maybe_mention : Text → Text → Text → Text
maybe_mention text chat_type open_id =
    if is_group chat_type
    then codes "<at id=\"" ++ (open_id ++ (codes "\"></at> " ++ text))
    else text

-- A receiver and the kind of its id.
abbrev pub Target : Type 0
Target = Text × Text

unfoldable pub reply_target : Text → Text → Text → Target
reply_target chat_id chat_type open_id =
    if is_group chat_type then (chat_id, codes "chat_id") else (open_id, codes "open_id")

-- `str::replace` of a character.
unfoldable pub replace_char : ℕ → Text → Text → Text
replace_char c by [] = []
replace_char c by (d ∷ s) =
    if nat_eq d c then by ++ replace_char c by s else d ∷ replace_char c by s

unfoldable pub status_card : Text → Text → Text → Text → Text → Value
status_card title template status action details = obj (
    ("config" := obj (("wide_screen_mode" := bool true) ∷ []))
    ∷ ("header"
        := obj (
            ("title" := obj (("tag" := str "plain_text") ∷ ("content" := string title) ∷ []))
            ∷ ("template" := string template)
            ∷ []))
    ∷ ("elements"
        := arr (
            obj (
              ("tag" := str "div")
              ∷ ("text"
                  := obj (
                      ("tag" := str "lark_md")
                      ∷ ("content"
                          := string (
                              codes "**操作**: "
                              ++ (action
                                  ++ (codes "\n\n**状态**: "
                                      ++ (status ++ (codes "\n\n" ++ details))))))
                      ∷ []))
              ∷ [])
            ∷ []))
    ∷ [])

unfoldable pub build_approved_card : Text → Text → Value
unfolding status_card
build_approved_card = status_card (codes "✅ 操作已批准") (codes "green") (codes "✅ 已批准")

unfoldable pub build_denied_card : Text → Text → Value
unfolding status_card
build_denied_card = status_card (codes "❌ 操作已拒绝") (codes "red") (codes "❌ 已拒绝")
