-- ===== src/Memory/Dictionary/Young.antt =====
-- The younger half of the entries, and the eviction of memory/dictionary.go.
use enzo.Prelude.{◌/◌, List, drop}
use enzo.Memory.Dictionary.{DictEntry, Dictionary, count, by_age}

-- The second half of the entries by age.
abbrev pub younger_half : Dictionary → List DictEntry
younger_half d = drop (count d / 2) (by_age d)
