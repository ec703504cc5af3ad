-- ===== src/Path/Segments.antt =====
-- Paths as segments, the last one first.
use lighttpd.Prelude.{◌≤◌, ◌≡◌, Bool, true, false, List, Bytes, [], ◌∷◌, ◌++◌, ◌==◌, if◌then◌else◌}

-- Without a slash
abbrev pub IsToken : Bytes → Type 0
IsToken [] = 0 ≤ 0
IsToken (c ∷ t) = ((c == 47) ≡ false) × IsToken t

-- Neither empty nor "." nor ".."
abbrev pub is_plain : Bytes → Bool
is_plain [] = false
is_plain (a ∷ []) = if a == 46 then false else true
is_plain (a ∷ b ∷ []) = if a == 46 then (if b == 46 then false else true) else true
is_plain (a ∷ b ∷ c ∷ t) = true

abbrev pub AreSegments : List Bytes → Type 0
AreSegments [] = 0 ≤ 0
AreSegments (s ∷ ss) = IsToken s × (is_plain s ≡ true) × AreSegments ss

-- "/a/b" for the segments b and a
abbrev pub joined : List Bytes → Bytes
joined [] = []
joined (s ∷ ss) = joined ss ++ (47 ∷ s)
