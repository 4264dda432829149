-- ===== src/Safety/Tests.antt =====
-- The theorems about confirmations at concrete commands.
use arcc.Base.{[], ◌∷◌, list_Eq}
use arcc.Base.Text.{Text, codes}
use arcc.Safety.{Allowlist}

abbrev careful : Allowlist
careful = record {
  require_confirm = codes "rm" ∷ codes "git push" ∷ [];
  session_approved = codes "make" ∷ [];
}

abbrev pushing : Text
pushing = codes " git push --force"
