-- ===== src/Payments/Fixtures.antt =====
-- A receipt, its file and the tables of Unicode for ASCII: what the tests of several modules start from.
use proyecto.Common.{false, ◌||◌, none, some, [], ◌∷◌, ◌++◌, ◌==◌}
use proyecto.Common.Chars.{codes}
use proyecto.Payments.Text.{Text, Unicode, upper, is_digit, is_upper, is_lower}
use proyecto.Payments.Parser.{UploadFile, Settings}

abbrev pub plain_text : Unicode
plain_text = record {
  to_upper = λ c. upper c ∷ [];
  fold = λ c. upper c ∷ [];
  is_word = λ c. is_digit c || is_upper c || is_lower c || c == 95;
}

abbrev pub receipt : Text
receipt =
    codes "Datos de la cuenta de destino"
    ++ (10 ∷ codes "Titular: ACME")
    ++ (10 ∷ codes "Monto: S/ 12.50")
    ++ (10 ∷ codes "Datos de envio de constancia")

abbrev pub file : UploadFile
file = record { filename = some (codes "a.PDF"); content_type = none }

abbrev pub settings : Settings
settings = record { enable_ocr = false; min_text_length = 20 }
