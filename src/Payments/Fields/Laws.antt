-- ===== src/Payments/Fields/Laws.antt =====
-- A field that is printed on a line of its own is read back.
use proyecto.Common.{◌≡◌, ℕ, Bool, true, false, none, [], ◌∷◌, ◌++◌, ◌==◌, All}
use proyecto.Payments.Text.{Text, Unicode, newline, skip_space, after_prefix}

-- The characters of this text are folded one to one.
abbrev pub IsPlain : Unicode → (ℕ → ℕ) → Text → Type 0
IsPlain u f t = All (λ c. u.fold c ≡ f c ∷ []) t

abbrev pub AllOnLine : (ℕ → ℕ) → Text → Type 0
AllOnLine f t = All (λ c. (f c == newline) ≡ false) t

-- The line as it is printed: the label, a colon, a space, the value and the end of the line
abbrev pub print_field : Text → Text → Text → Text
print_field campo valor rest = campo ++ (58 ∷ 32 ∷ (valor ++ (10 ∷ rest)))

-- The signs that folding keeps
pub record KeepsSigns (f : ℕ → ℕ) : Type 0 where
  pub colon : f 58 ≡ 58
  pub space : f 32 ≡ 32
  pub line_end : f 10 ≡ 10

-- The text `t` begins a line, and no line of the text `b` before it begins, after white space, with the
-- label.
abbrev pub NoneEarlier : Text → Bool → Text → Text → Type 0
NoneEarlier label at_line [] t = at_line ≡ true
NoneEarlier label at_line (c ∷ b) t =
    (at_line ≡ true → after_prefix label (skip_space (c ∷ (b ++ t))) ≡ none)
    × NoneEarlier label (c == newline) b t
