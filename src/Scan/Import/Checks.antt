-- ===== src/Scan/Import/Checks.antt =====
-- No file reaches the server that it would refuse for its type, size or width.
use grocery_genie.Base.{
  ℕ, ◌≤◌, String, ◌≡◌, refl, subst, ◌↔◌, inl, inr, true, Option, none, some, [], arith, str_eq,
  eq_iff, if◌then◌else◌, Bool-cases, or_else,
}
use grocery_genie.Errors.Search.{codes}
use grocery_genie.Queue.{library, pdf}
use grocery_genie.Scan.Import.{
  max_upload_bytes, min_image_width, type_by_extension, PickedReceipt, unsupported_type, rejected,
  picked, Asset, check_file, picked_file, unless, from_library_result, extension_from, lookup_type,
  first_type, supported, from_typed, from_document_result,
}

abbrev pub AtMost : Option ℕ → ℕ → Type 0
AtMost none bound = Unit
AtMost (some n) bound = n ≤ bound

abbrev pub AtLeast : Option ℕ → ℕ → Type 0
AtLeast none bound = Unit
AtLeast (some n) bound = bound ≤ n

-- A picked file keeps its place and size limits; a PDF has no preview and says that it is a PDF.
pub record IsChecked (a : Asset) (r : PickedReceipt) : Type 0 where
  pub same_uri : r.uri ≡ a.uri
  pub small : AtMost a.size max_upload_bytes
  pub pdf_source : (r.source ≡ pdf) ↔ (r.mime_type ≡ "application/pdf")
  pub pdf_preview : (r.preview_uri ≡ none) ↔ (r.mime_type ≡ "application/pdf")

abbrev receipt_of : String → String → PickedReceipt
receipt_of uri t = record {
  uri = uri;
  mime_type = t;
  source = if str_eq t "application/pdf" then pdf else library;
  preview_uri = if str_eq t "application/pdf" then none else some uri;
}

receipt_of-IsChecked :
    (a : Asset) (t : String) → AtMost a.size max_upload_bytes → IsChecked a (receipt_of a.uri t)
receipt_of-IsChecked a t small = record {
  same_uri = refl;
  small = small;
  pdf_source = ground (arith, eq_iff t "application/pdf");
  pdf_preview = ground (arith, eq_iff t "application/pdf");
}

unless-picked :
    (size width : Option ℕ) (uri t : String) (r : PickedReceipt)
    → unless (check_file size width) (picked_file uri t) ≡ picked r
    → AtMost size max_upload_bytes × AtLeast width min_image_width × (receipt_of uri t ≡ r)
unfolding check_file picked_file
unless-picked none none uri t r e = ground arith
unless-picked (some n) none uri t r e = ground arith
unless-picked none (some w) uri t r e = ground arith
unless-picked (some n) (some w) uri t r e = ground arith

-- A photo that the library import passes on is within the size limit, at least 300 pixels wide, and
-- keeps its URI.
from_library_result-IsChecked :
    (a : Asset) (r : PickedReceipt)
    → from_library_result (some a) ≡ picked r
    → IsChecked a r × AtLeast a.width min_image_width
unfolding from_library_result
from_library_result-IsChecked a r e =
    let t = or_else a.mime_type "image/jpeg" in
    let (small, wide, same) = unless-picked a.size a.width a.uri t r e in
    (subst (IsChecked a) same (receipt_of-IsChecked a t small), wide)

from_typed-IsChecked :
    (t : Option String) (a : Asset) (r : PickedReceipt)
    → from_typed t a ≡ picked r
    → IsChecked a r × (supported r.mime_type ≡ true)
unfolding from_typed
from_typed-IsChecked none a r e = absurd (cc)
from_typed-IsChecked (some t) a r e = elim (Bool-cases (supported t)) [
  | inl ok ↦
      let (small, wide, same) = unless-picked a.size none a.uri t r (rw ok at e) in
      (
        subst (IsChecked a) same (receipt_of-IsChecked a t small),
        subst (λ (x : PickedReceipt). supported x.mime_type ≡ true) same ok,
      )
  | inr bad ↦ let no_file : rejected unsupported_type ≡ picked r = rw bad at e in absurd (cc)
]

-- A file that the Files import passes on is of an accepted type and within the size limit, keeps
-- its URI, and is marked as a PDF, with no preview, exactly if it is one.
from_document_result-IsChecked :
    (a : Asset) (r : PickedReceipt)
    → from_document_result (some a) ≡ picked r
    → IsChecked a r × (supported r.mime_type ≡ true)
unfolding from_document_result
from_document_result-IsChecked a r e =
    from_typed-IsChecked
      (first_type a.mime_type (lookup_type (extension_from [] (codes a.name)) type_by_extension)) a
      r e
