-- ===== src/Text.antt =====
-- C strings as lists of character codes (the final 0 left out), and the functions of <string.h> that
-- the modelled code calls.
use Prim.Native.String.{String}
use Prim.Native.Char.{code}
use tivo_tools.Base.{ℕ, suc, List, [], ◌∷◌, Bool, true, false, ◌&&◌, ◌||◌, ◌==◌, if◌then◌else◌}

abbrev pub CString : Type 0
CString = List ℕ

-- The codes of a literal.
abbrev pub codes : String → CString
codes String.[] = []
codes (String.◌∷◌ c s) = code c ∷ codes s

-- Does a character stand in a set?
unfoldable pub in_set : ℕ → CString → Bool
in_set c [] = false
in_set c (x ∷ xs) = c == x || in_set c xs

-- `strcspn`: the characters before the first one of the set.
unfoldable pub strcspn : CString → CString → ℕ
strcspn [] set = 0
strcspn (c ∷ s) set = if in_set c set then 0 else suc (strcspn s set)

-- `strspn`: the characters of the set that a text begins with.
unfoldable pub strspn : CString → CString → ℕ
strspn [] set = 0
strspn (c ∷ s) set = if in_set c set then suc (strspn s set) else 0

-- `!strncmp (s, prefix, strlen (prefix))`.
unfoldable pub starts_with : CString → CString → Bool
starts_with s [] = true
starts_with [] (p ∷ ps) = false
starts_with (c ∷ s) (p ∷ ps) = c == p && starts_with s ps
