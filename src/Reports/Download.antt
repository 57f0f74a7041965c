-- ===== src/Reports/Download.antt =====
-- The download and the sharing of an export: mobile/src/features/settings/services/exportApi.ts,
-- hooks/useExportData.ts and mobile/src/utils/premium.ts. The server, the download and the share
-- sheet are given by their answers.
use grocery_genie.Base.{
  nat_eq, string_eq, ℕ, ◌+◌, Bool, true, false, Option, none, some, ◌==◌, if◌then◌else◌,
}
use grocery_genie.Errors.{Thrown, api, other, coded, api_error_code, is_text}

-- What the native download reports: a file, a status in its message, or another error.
pub data Download : Type 0 where
  downloaded : Download
  status_403 status_429 : Download
  broken : Download

abbrev pub premium_required : Thrown
premium_required = api (record {
  status = 403;
  body = some (record { detail = coded "premium_required"; code = none });
})

abbrev pub export_busy : Thrown
export_busy =
    api
      (record { status = 429; body = some (record { detail = coded "export_busy"; code = none }) })

unfoldable pub is_export_busy : Thrown → Bool
is_export_busy (api e) = e.status == 429
is_export_busy other = false

-- utils/premium.ts
unfoldable pub is_premium_required : Thrown → Bool
unfolding api_error_code
is_premium_required e = is_text (api_error_code e) "premium_required"

-- Whether the cache holds a file under the export's name, the shares so far, and whether the profile
-- was marked stale.
pub record Files : Type 0 where
  pub cached : Bool
  pub shared : ℕ
  pub profile_stale : Bool

pub data Exported : Type 0 where
  shared_file : Exported
  failed_with : Thrown → Exported

-- shareExport: the share sheet may throw, and so may the deletion.
unfoldable pub share_export : Bool → Bool → Files → Files × Exported
share_export shares deletes f = (
  record f { cached = if deletes then false else f.cached; shared = f.shared + 1 },
  if shares then shared_file else failed_with other,
)

-- A download that fails writes no file.
unfoldable pub after_download : Download → Bool → Bool → Files → Files × Exported
unfolding share_export
after_download downloaded shares deletes f =
    share_export shares deletes (record f { cached = true })
after_download status_403 shares deletes f = (f, failed_with premium_required)
after_download status_429 shares deletes f = (f, failed_with export_busy)
after_download broken shares deletes f = (f, failed_with other)

-- What fetchMe says of Premium, or what it throws.
pub data Me : Type 0 where
  premium : Bool → Me
  unread : Thrown → Me

-- A copy of an earlier export is deleted before the download; `none` if that throws.
unfoldable pub drop_earlier : Bool → Files → Option Files
drop_earlier drops f =
    if f.cached then if drops then some (record f { cached = false }) else none else some f

unfoldable pub after_drop : Files → Download → Bool → Bool → Option Files → Files × Exported
unfolding after_download
after_drop f d shares deletes none = (f, failed_with other)
after_drop f d shares deletes (some f') = after_download d shares deletes f'

-- downloadExport and shareExport; `drops` and `deletes` say whether the deletion of the earlier copy
-- works, and that of the copy that was shared.
unfoldable pub export_file : Me → Bool → Download → Bool → Bool → Files → Files × Exported
unfolding after_drop drop_earlier
export_file (unread e) drops d shares deletes f = (f, failed_with e)
export_file (premium false) drops d shares deletes f = (f, failed_with premium_required)
export_file (premium true) drops d shares deletes f =
    after_drop f d shares deletes (drop_earlier drops f)

-- onError of the mutation
unfoldable pub note_error : Exported → Files → Files
unfolding is_premium_required
note_error shared_file f = f
note_error (failed_with e) f =
    if is_premium_required e then record f { profile_stale = true } else f

unfoldable pub export_data : Me → Bool → Download → Bool → Bool → Files → Files × Exported
unfolding export_file note_error
export_data me drops d shares deletes f =
    let r = export_file me drops d shares deletes f in (note_error r.1 r.0, r.1)
