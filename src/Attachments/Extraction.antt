-- ===== src/Attachments/Extraction.antt =====
-- `extract_text` of backend/attachment.py, with the readers of PDF files and images as arguments.
use pi_development_agent.Base.{
  ℕ, ◌+◌, Text, codes, String, string_Eq, nat_Eq, list_Eq, ◌==◌, elem, starts_with, join, decimal,
  Bool, ◌||◌, List, [], ◌∷◌, ◌++◌, any, map, length, Option, none, some, if◌then◌else◌,
}
use mathlib.Core.List.{reverse}
use pi_development_agent.Attachments.Model.{Bytes}

-- what `pypdf` gives: the text of each page, or a reason that there is none
pub data PdfReading : Type 0 where
  no_pypdf : PdfReading
  pdf_fails : Text → PdfReading
  pdf_pages : List Text → PdfReading

-- what `pytesseract` gives
pub data OcrReading : Type 0 where
  no_tesseract : OcrReading
  ocr_fails : Text → OcrReading
  ocr_text : Text → OcrReading

pub record Readers : Type 0 where
  pub read_pdf : Bytes → PdfReading
  pub read_image : Bytes → OcrReading
  pub decode : Bytes → Text

pub record Extraction : Type 0 where
  pub text : Text
  pub page_count : Option ℕ
  pub error : Option Text

-- the pages from the `n`-th on
abbrev numbered : ℕ → List Text → List Text
numbered n [] = []
numbered n (page ∷ pages) =
    (codes "[Page " ++ (decimal (n + 1) ++ (codes "]\n" ++ page))) ∷ numbered (n + 1) pages

unfoldable pub extract_pdf : PdfReading → Extraction
extract_pdf no_pypdf = record {
  text = codes "[PDF extraction requires pypdf]";
  page_count = none;
  error = some (codes "pypdf not installed");
}
extract_pdf (pdf_fails error) = record { text = []; page_count = none; error = some error }
extract_pdf (pdf_pages pages) = record {
  text = join (codes "\n\n") (numbered 0 pages);
  page_count = some (length pages);
  error = none;
}

unfoldable pub extract_image_ocr : OcrReading → Extraction
extract_image_ocr no_tesseract = record {
  text =
      codes
        "[Image OCR requires pytesseract + Pillow; install with pip install pytesseract pillow]";
  page_count = none;
  error = some (codes "pytesseract not installed");
}
extract_image_ocr (ocr_fails error) = record { text = []; page_count = none; error = some error }
extract_image_ocr (ocr_text text) = record { text = text; page_count = none; error = none }

-- `text.endswith(suffix)`
abbrev ends_with : Text → Text → Bool
ends_with suffix text = starts_with (reverse suffix) (reverse text)

abbrev plain_types : List Text
plain_types = map codes ("text/plain" ∷ "text/csv" ∷ "text/markdown" ∷ [])

abbrev plain_suffixes : List String
plain_suffixes = ".txt" ∷ ".csv" ∷ ".md" ∷ ".json" ∷ ".xml" ∷ []

unfoldable pub is_plain : Text → Text → Bool
is_plain mime filename =
    elem mime plain_types || any (λ suffix. ends_with (codes suffix) filename) plain_suffixes

unfoldable pub extract_text : (Text → Text) → Readers → Bytes → Text → Text → Extraction
extract_text lower readers content mime filename =
    if mime == codes "application/pdf" || ends_with (codes ".pdf") (lower filename)
    then extract_pdf (readers.read_pdf content)
    else if starts_with (codes "image/") mime
    then extract_image_ocr (readers.read_image content)
    else if is_plain mime filename
    then record { text = readers.decode content; page_count = none; error = none }
    else record {
      text =
          codes "["
          ++ (filename ++ (codes ": text extraction not available for " ++ (mime ++ codes "]")));
      page_count = none;
      error = none;
    }
