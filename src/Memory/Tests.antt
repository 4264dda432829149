-- ===== src/Memory/Tests.antt =====
-- The theorems about facts at concrete rows.
use arcc.Base.{◌≡◌, refl, ◌&&◌, List, [], none, some, ◌==◌, list_Eq, list_eq, if◌then◌else◌}
use arcc.Base.Text.{Text, codes, is_whitespace}
use arcc.Model.Types.{system, assistant}
use arcc.Model.Provider.{ModelProvider, ok, stream, err}
use arcc.Memory.{MemoryFact, set, delete, clear, extract}
use arcc.Memory.Facts.{value_at, value_at-operations}

abbrev rows : List MemoryFact
unfolding set
rows =
    set 7 (codes "u") (codes "b") (codes "2") [] (set 5 (codes "u") (codes "a") (codes "1") [] [])

value_at-operations_example :
    (value_at (codes "u") (codes "a") (set 9 (codes "u") (codes "a") (codes "3") [] rows) ≡ (
      if (codes "u" == codes "u") && (codes "a" == codes "a")
      then some (codes "3")
      else value_at (codes "u") (codes "a") rows))
    × (value_at (codes "u") (codes "a") (delete (codes "u") (codes "a") rows).1 ≡ (
        if (codes "u" == codes "u") && (codes "a" == codes "a")
        then none
        else value_at (codes "u") (codes "a") rows))
    × (value_at (codes "u") (codes "a") (clear (codes "u") rows).1
        ≡ (if codes "u" == codes "u" then none else value_at (codes "u") (codes "a") rows))
value_at-operations_example =
    value_at-operations 9 (codes "u") (codes "a") (codes "3") [] (codes "u") (codes "a") rows

abbrev teller : ModelProvider
unfolding assistant
teller = record {
  model_name = codes "flash";
  chat = λ _. ok (record {
    message = assistant (codes "Home Town: Oslo\nnothing");
    reasoning_content = none;
    usage = record { prompt_tokens = 0; completion_tokens = 0 };
  });
  chat_stream = λ _. err (stream []);
  count_tokens = λ _. 0;
}

abbrev unchanged : Text → Text
unchanged s = s

extract_test :
    value_at
      (codes "u")
      (codes "Home-Town")
      (extract unchanged 3 (system []) teller (codes "u") [] [] []).1
    ≡ some (codes "Oslo")
unfolding extract teller system list_eq is_whitespace
extract_test = refl
