-- ===== src/Payments/Fields.antt =====
-- `obtener_valor` and `_extract_section` of app/api/finance/payment_provider/pdf_parser.py: what follows
-- a label on its line, and what stands between two headings. The search runs on the text without accents
-- and in upper case; its offsets then cut the value out of the text itself.
pub mod Laws
use proyecto.Common.{
  ℕ, zero, suc, ◌+◌, ◌-◌, Bool, true, false, not, ◌&&◌, ◌||◌, Option, none, some, List, [], ◌∷◌,
  ◌++◌, ◌==◌, if◌then◌else◌, length, take, drop,
}
use proyecto.Common.Chars.{is_space_code}
use proyecto.Payments.Text.{
  Text, Unicode, normalizar_para_busqueda, newline, not_newline, skip_space, strip, after_prefix,
  after_first, before_first, span_take,
}

-- Where a value begins, and how long it is
pub record Slice : Type 0 where
  pub start : ℕ
  pub size : ℕ

abbrev pub cut : Slice → Text → Text
cut s t = take s.size (drop s.start t)

-- `[^\S\r\n]`: white space that ends no line
abbrev pub is_blank : ℕ → Bool
is_blank c = is_space_code c && not (c == 10) && not (c == 13)

abbrev pub colon : ℕ
colon = 58

-- `:?`
abbrev pub skip_colon : Text → Text
skip_colon [] = []
skip_colon (c ∷ t) = if c == colon then t else c ∷ t

-- `[^\S\r\n]+(.+)$`: the blanks are as many as leave a character for the value. Of a line that has
-- only blanks left, two or more, the last blank is the value.
abbrev pub value_in : ℕ → Text → Option Slice
value_in start [] = none
value_in start (c ∷ t) =
    let later = value_in (suc start) t in
    if is_blank c
    then elim later [ none ↦ line_value (suc start) t | some found ↦ some found ]
    else none
  where
    line_value : ℕ → Text → Option Slice
    line_value start [] = none
    line_value start (c ∷ t) =
        if c == newline
        then none
        else some (record { start = start; size = length (span_take not_newline (c ∷ t)) })

-- The label at this place, after white space that may span lines
abbrev pub value_after : ℕ → Option Text → Option Slice
value_after whole none = none
value_after whole (some rest) = value_in (whole - length (skip_colon rest)) (skip_colon rest)

abbrev pub label_at : Text → ℕ → Text → Option Slice
label_at campo whole t = value_after whole (after_prefix campo (skip_space t))

abbrev pub first_slice : Bool → Option Slice → Option Slice → Option Slice
first_slice true (some found) later = some found
first_slice true none later = later
first_slice false here later = later

-- The first line, as `^` finds them, that has the label and a value
abbrev pub find_label : Text → ℕ → Bool → Text → Option Slice
find_label campo whole at_line [] = first_slice at_line (label_at campo whole []) none
find_label campo whole at_line (c ∷ t) =
    first_slice at_line (label_at campo whole (c ∷ t)) (find_label campo whole (c == newline) t)

abbrev pub cut_value : Text → Option Slice → Option Text
cut_value contenido none = none
cut_value contenido (some slice) = some (strip (cut slice contenido))

unfoldable pub obtener_valor : Unicode → Text → Text → Option Text
obtener_valor u contenido campo =
    let folded = normalizar_para_busqueda u contenido in
    cut_value contenido (find_label (normalizar_para_busqueda u campo) (length folded) true folded)

-- From the end of the first heading to the second one after it, or to the end
abbrev pub section_slice : Text → ℕ → Option Text → Option Slice
section_slice fin whole none = none
section_slice fin whole (some rest) =
    some (record { start = whole - length rest; size = before_first fin rest })

abbrev pub cut_section : Text → Option Slice → Text
cut_section contenido none = []
cut_section contenido (some slice) = strip (cut slice contenido)

unfoldable pub extract_section : Unicode → Text → Text → Text → Text
extract_section u contenido inicio fin =
    let folded = normalizar_para_busqueda u contenido in
    cut_section contenido (
      section_slice (normalizar_para_busqueda u fin) (length folded)
        (after_first (normalizar_para_busqueda u inicio) folded))
