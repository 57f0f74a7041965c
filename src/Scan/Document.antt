-- ===== src/Scan/Document.antt =====
-- The document scanner of the platform: scanDocument of
-- mobile/src/features/receipt-capture/services/documentScanner.ts. The scanner module is given by
-- its answers.
use grocery_genie.Base.{
  nat_eq, string_eq, is_empty, ℕ, String, Bool, true, false, Option, none, some, List, [], ◌∷◌, map,
  if◌then◌else◌, length,
}

pub record ScannedImage : Type 0 where
  pub uri : String
  pub mime_type : Option String
  pub width : ℕ
  pub height : ℕ

pub record Page : Type 0 where
  pub uri : String
  pub mime_type : String
  pub width : ℕ
  pub height : ℕ
  pub dropped_pages : ℕ

pub data ScanOutcome : Type 0 where
  page : Page → ScanOutcome
  cancelled failed : ScanOutcome

-- What launchScanner gives: it throws, or answers with an error, or with its images and whether the
-- user cancelled.
pub data ScanResult : Type 0 where
  thrown : ScanResult
  erroneous : ScanResult
  answered_with : Bool → List ScannedImage → ScanResult

-- `first.type || 'image/jpeg'`
abbrev pub type_or_jpeg : Option String → String
type_or_jpeg none = "image/jpeg"
type_or_jpeg (some t) = if is_empty t then "image/jpeg" else t

abbrev pub uri_of : ScannedImage → String
uri_of i = i.uri

-- The outcome, and the files deleted; `scanner` says whether the module can be loaded.
unfoldable pub scan_document : Bool → ScanResult → ScanOutcome × List String
scan_document false r = (failed, [])
scan_document true thrown = (failed, [])
scan_document true erroneous = (failed, [])
scan_document true (answered_with did_cancel []) = (cancelled, [])
scan_document true (answered_with did_cancel (i ∷ is)) = if did_cancel then (cancelled, []) else (
  page (record {
    uri = i.uri;
    mime_type = type_or_jpeg i.mime_type;
    width = i.width;
    height = i.height;
    dropped_pages = length is;
  }),
  map uri_of is,
)
