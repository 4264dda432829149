-- ===== src/Dsml/Tests.antt =====
-- The theorems about DSML at concrete texts.
use arcc.Base.{◌≡◌, ◌≢◌, refl, ℕ, ◌≤◌, true, false, drop, [], Option, none, arith, list_Eq}
use arcc.Base.Text.{Text, codes, byte_len, is_whitespace}
use arcc.Model.Json.{Value}
use arcc.Dsml.Tags.{find_open_tag, find_close_tag}
use arcc.Dsml.Stream.{new_accumulator, ingest}
use arcc.Dsml.Streaming.{accounted, ingest_plain, ingest_drops_prefix}

-- A reader that takes no text for JSON, and ids that are all the same.
abbrev no_json : Text → Option Value
no_json _ = none

abbrev one_id : ℕ → Text
one_id _ = codes "dsml_0"

abbrev plain : Text
plain = codes "a < b"

abbrev prefixed : Text
prefixed = codes "hi <｜DSML｜calls>"

ingest_plain_example :
    let r = ingest no_json one_id 0 new_accumulator plain in
    (accounted r ≡ plain) × (r.calls ≡ []) × (r.state.in_dsml ≡ false) × (byte_len r.state.buf ≤ 64)
unfolding find_open_tag new_accumulator
ingest_plain_example = ingest_plain no_json one_id 0 new_accumulator plain refl refl

ingest_drops_prefix_example :
    let r = ingest no_json one_id 0 new_accumulator prefixed in
    (r.emit ≡ none)
    × (r.calls ≡ [])
    × (r.state.in_dsml ≡ true)
    × (r.state.buf ≡ drop 3 prefixed)
    × (accounted r ≢ prefixed)
unfolding find_open_tag find_close_tag new_accumulator is_whitespace
ingest_drops_prefix_example =
    ingest_drops_prefix no_json one_id 0 new_accumulator prefixed 3 16 refl refl refl (omega arith)
