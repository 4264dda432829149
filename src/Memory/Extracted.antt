-- ===== src/Memory/Extracted.antt =====
-- crates/arcc-core/src/memory.rs, `extract`: the facts that a model's answer becomes.
use arcc.Base.{◌≡◌, false, nat_eq, list_Eq, any}
use arcc.Base.Text.{Text, is_empty}
use arcc.Memory.{MemoryFact}

-- A fact with a key, in which there is no space, and with a value.
abbrev pub IsFact : MemoryFact → Type 0
IsFact f = (is_empty f.key ≡ false) × (any (nat_eq 32) f.key ≡ false) × (is_empty f.value ≡ false)
