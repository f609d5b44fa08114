-- ===== src/Common/Chars.antt =====
-- A text as the codes of its characters, and its slices (`text[:n]`).
use Prim.Native.Nat.{ℕ, zero, suc}
use Prim.Native.Char.{Char, code}
use Prim.Native.String.{String, [], ◌∷◌}
use mathlib.Core.Bool.{Bool, ◌&&◌, ◌||◌}
use mathlib.Core.List.{List, [] as nil_list, ◌∷◌ as cons_list}
use proyecto.Common.Tests.{leb, ◌==◌, if◌then◌else◌}

abbrev pub codes : String → List ℕ
codes [] = nil_list
codes (ch ∷ rest) = cons_list (code ch) (codes rest)

abbrev pub take_text : ℕ → String → String
take_text zero text = []
take_text (suc n) [] = []
take_text (suc n) (ch ∷ rest) = ch ∷ take_text n rest

-- What Python's `str.isspace` accepts.
abbrev pub is_space_code : ℕ → Bool
is_space_code c =
    (leb 9 c && leb c 13)
    || (leb 28 c && leb c 32)
    || c == 133
    || c == 160
    || c == 5760
    || (leb 8192 c && leb c 8202)
    || c == 8232
    || c == 8233
    || c == 8239
    || c == 8287
    || c == 12288

abbrev pub is_space : Char → Bool
is_space ch = is_space_code (code ch)

-- `text.lstrip()`, `text.rstrip()` and `text.strip()`
abbrev pub lstrip : String → String
lstrip [] = []
lstrip (ch ∷ rest) = let stripped = lstrip rest in if is_space ch then stripped else ch ∷ rest

abbrev pub before : Char → String → String
before ch [] = if is_space ch then [] else ch ∷ []
before ch (next ∷ rest) = ch ∷ next ∷ rest

abbrev pub rstrip : String → String
rstrip [] = []
rstrip (ch ∷ rest) = before ch (rstrip rest)

unfoldable pub strip : String → String
strip text = rstrip (lstrip text)
