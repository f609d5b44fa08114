-- ===== src/Payments/Text.antt =====
-- Texts and the expressions that app/api/finance/payment_provider/pdf_parser.py searches them with. A text
-- is the list of its code points. `\d` and the letters of a pattern are taken as ASCII.
use proyecto.Common.{
  ℕ, suc, ◌-◌, Bool, true, false, not, ◌&&◌, ◌||◌, Option, none, some, List, [], ◌∷◌, ◌++◌, ◌==◌,
  leb, if◌then◌else◌, gather, select,
}
use proyecto.Common.Chars.{is_space_code}

abbrev pub Text : Type 0
Text = List ℕ

-- What Python's Unicode tables say: a character in upper case, the same decomposed and without its
-- marks, and whether `\w` accepts it.
pub record Unicode : Type 0 where
  pub to_upper : ℕ → Text
  pub fold : ℕ → Text
  pub is_word : ℕ → Bool

unfoldable pub normalizar_para_busqueda : Unicode → Text → Text
normalizar_para_busqueda u valor = gather u.fold valor

abbrev pub newline : ℕ
newline = 10

abbrev pub is_digit : ℕ → Bool
is_digit c = leb 48 c && leb c 57

abbrev pub is_upper : ℕ → Bool
is_upper c = leb 65 c && leb c 90

abbrev pub is_lower : ℕ → Bool
is_lower c = leb 97 c && leb c 122

-- `upper()` of an ASCII character
abbrev pub upper : ℕ → ℕ
upper c = if is_lower c then c - 32 else c

abbrev pub text_eq : Text → Text → Bool
text_eq [] [] = true
text_eq [] (d ∷ t) = false
text_eq (c ∷ s) [] = false
text_eq (c ∷ s) (d ∷ t) = (c == d) && text_eq s t

-- `lstrip`, `rstrip` and `strip`
abbrev pub skip_space : Text → Text
skip_space [] = []
skip_space (c ∷ t) = let rest = skip_space t in if is_space_code c then rest else c ∷ t

abbrev pub keep_before : ℕ → Text → Text
keep_before c [] = if is_space_code c then [] else c ∷ []
keep_before c (d ∷ t) = c ∷ d ∷ t

abbrev pub drop_last_space : Text → Text
drop_last_space [] = []
drop_last_space (c ∷ t) = keep_before c (drop_last_space t)

unfoldable pub strip : Text → Text
strip t = drop_last_space (skip_space t)

-- What follows the prefix, if the text starts with it
abbrev pub after_prefix : Text → Text → Option Text
after_prefix [] t = some t
after_prefix (c ∷ p) [] = none
after_prefix (c ∷ p) (d ∷ t) = let rest = after_prefix p t in if c == d then rest else none

abbrev pub is_some {ℓ} : {A : Type ℓ} → Option A → Bool
is_some none = false
is_some (some a) = true

-- `text.startswith(prefix)`, and `part in text`
abbrev pub starts_with : Text → Text → Bool
starts_with prefix t = is_some (after_prefix prefix t)

abbrev pub contains : Text → Text → Bool
contains part [] = starts_with part []
contains part (c ∷ t) = starts_with part (c ∷ t) || contains part t

-- The text after the first occurrence
abbrev pub after_first : Text → Text → Option Text
after_first part [] = after_prefix part []
after_first part (c ∷ t) =
    let later = after_first part t in
    elim (after_prefix part (c ∷ t)) [ none ↦ later | some rest ↦ some rest ]

-- How many characters stand before the first occurrence, or before the end
abbrev pub before_first : Text → Text → ℕ
before_first part [] = 0
before_first part (c ∷ t) =
    let later = before_first part t in if starts_with part (c ∷ t) then 0 else suc later

-- The longest beginning of characters that pass, and what follows it
abbrev pub span_take : (ℕ → Bool) → Text → Text
span_take p [] = []
span_take p (c ∷ t) = let rest = span_take p t in if p c then c ∷ rest else []

abbrev pub span_drop : (ℕ → Bool) → Text → Text
span_drop p [] = []
span_drop p (c ∷ t) = let rest = span_drop p t in if p c then rest else c ∷ t

-- The text up to the end of its line: `.` is any character but a newline.
abbrev pub not_newline : ℕ → Bool
not_newline c = not (c == newline)

-- `splitlines`, stripped, without the empty lines
abbrev pub is_line_end : ℕ → Bool
is_line_end c =
    (leb 10 c && leb c 13) || (leb 28 c && leb c 30) || c == 133 || c == 8232 || c == 8233

abbrev pub add_line : Text → List Text → List Text
add_line [] rest = rest
add_line (c ∷ t) rest = (c ∷ t) ∷ rest

-- The lines of a text whose first line began with these characters, the last one first
abbrev pub lines_from : Text → Text → List Text
lines_from begun [] = add_line (strip begun) []
lines_from begun (c ∷ t) =
    let ended = lines_from [] t in
    let longer = lines_from (begun ++ (c ∷ [])) t in
    if is_line_end c then add_line (strip begun) ended else longer

unfoldable pub lines_of : Text → List Text
lines_of t = lines_from [] t

-- `re.sub(r"\s+", " ", text)`: a run of white space becomes one space.
abbrev pub space_if : Bool → Text → Text
space_if true t = 32 ∷ t
space_if false t = t

abbrev pub collapse_from : Bool → Text → Text
collapse_from pending [] = space_if pending []
collapse_from pending (c ∷ t) =
    let spaced = collapse_from true t in
    let plain = collapse_from false t in
    if is_space_code c then spaced else space_if pending (c ∷ plain)

unfoldable pub normalizar_texto : Unicode → Text → Text
normalizar_texto u valor = strip (collapse_from false (normalizar_para_busqueda u valor))

-- `re.sub(r"[^A-Z0-9 ]+", " ", base)`, and the white space collapsed again
abbrev pub is_key : ℕ → Bool
is_key c = is_upper c || is_digit c || c == 32

abbrev pub blank_others : Text → Text
blank_others [] = []
blank_others (c ∷ t) = (if is_key c then c else 32) ∷ blank_others t

unfoldable pub clave_comparacion : Unicode → Text → Text
clave_comparacion u valor = strip (collapse_from false (blank_others (normalizar_texto u valor)))

-- `re.sub(r"[^0-9A-Z]", "", valor.upper())`
abbrev pub is_document_key : ℕ → Bool
is_document_key c = is_digit c || is_upper c

unfoldable pub clave_documento : Unicode → Text → Text
clave_documento u valor = select is_document_key (gather u.to_upper valor)
