-- ===== src/Runner/Slug.antt =====
-- src/main.ts: names made safe for files. `toLowerCase` is that of ASCII letters.
use ad4m_link_language_tests.Prelude.{
  Text, ℕ, ◌+◌, Bool, true, false, ◌&&◌, ◌||◌, [], ◌∷◌, leb, ◌==◌, if◌then◌else◌, map,
}

-- `branch.replace(/\//g, "-")`
abbrev pub dashed : Text → Text
dashed [] = []
dashed (c ∷ s) = (if c == b'/' then b'-' else c) ∷ dashed s

to_lower : ℕ → ℕ
to_lower c = if leb b'A' c && leb c b'Z' then c + 32 else c

is_word : ℕ → Bool
is_word c = leb b'a' c && leb c b'z' || leb b'0' c && leb c b'9'

-- `s.replace(/[^a-z0-9]+/g, "-")`; `in_run` tells that the last character was replaced.
collapse : Bool → Text → Text
collapse in_run [] = []
collapse in_run (c ∷ s) =
    let word = c ∷ collapse false s in
    let run = collapse true s in if is_word c then word else if in_run then run else b'-' ∷ run

-- `s.replace(/-+$/, "")`
strip : Text → Text
strip [] = []
strip (c ∷ s) =
    let rest = strip s in
    elim rest [ [] ↦ (if c == b'-' then [] else c ∷ []) | d ∷ t ↦ c ∷ (d ∷ t) ]

pub slug : Text → Text
unfolding collapse strip to_lower is_word
slug name = strip (collapse false (map to_lower name))
