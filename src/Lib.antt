-- ===== src/Lib.antt =====
-- grocery-genie: the core of the mobile app.
--
-- The app scans grocery receipts. A photo is taken or a file is picked, uploaded, read by the
-- server, reviewed and confirmed; what cannot be uploaded waits in a queue on the phone. This
-- library models the TypeScript under mobile/src that keeps this state.
--
-- Base: the names, tests and lemmas that all files share; JavaScript's trim. Base.Int has integers
--   with Math.round, and Base.Sorting the stable sort by an order.
-- Errors: what a failed request means: ApiError and apiErrorCode (mobile/src/services/api.ts),
--   isQuotaExceededError, isAiConsentRequiredError, isRetryableScanError, scanErrorHint and
--   scanErrorMessage.
-- Queue: the offline queue, mobile/src/store/offlineStore.ts, one function for each operation of
--   the store. Queue.Sync is runSync of mobile/src/features/receipt-capture/services/offlineQueue.ts:
--   a loop over the photos queued at the start, where each round meets a `Turn` of its surroundings
--   (who is signed in, what else changes the store during the upload, how the upload ends).
--   Queue.Runs is syncPendingReceipts, which lets one run go at a time. Queue.Retry is the timer
--   loop of mobile/src/hooks/useSyncQueue.ts.
-- Scan: Scan.Submission is mobile/src/features/receipt-capture/hooks/useScanSubmission.ts, with the
--   React state as a record and the calls of router, prompts and analytics recorded in it;
--   Scan.Import is services/receiptImport.ts of the same feature; Scan.Attempts is
--   hooks/useReceiptImport.ts, as steps over any order of taps and answers; Scan.Consent is
--   mobile/src/features/ai-consent/services/consentPrompt.ts. Scan.Scanner is the screen of the
--   document scanner in mobile/app/(tabs)/scan.tsx, as steps over any order of taps, answers and
--   changes of focus, over Scan.Document, which is services/documentScanner.ts; Scan.Shutter is the
--   shutter of the camera there.
-- Auth: Auth.Store is mobile/src/store/authStore.ts with the keychain behind it, whose calls may
--   fail; Auth.Client is apiClient of mobile/src/services/api.ts, over a server given by its answers;
--   Auth.Sharing is getOrRefreshToken of the same file, where concurrent requests share a refresh;
--   Auth.Taps is mobile/src/features/notifications/pendingTap.ts and notificationTap.ts.
-- Review: buildReceiptUpdate and extractionFromReceipt of
--   mobile/src/features/receipt-capture/utils, over the types of the feature. Review.Form is the list
--   of items that mobile/app/review.tsx edits, Review.Form.Totals the totals it shows, and
--   Review.Screen the screen as a whole, from opening to saving or leaving.
-- Manual: entering a receipt by hand, mobile/app/manual-entry.tsx; Manual.Screen is its screen as
--   steps over any order of input and answers.
-- Calendar: dates as the app counts with them: dayNumber of priceTrend.ts, latestReceiptDate of
--   receiptDate.ts and muteUntil.ts.
-- Categories: the look of a category, mobile/src/constants/categories.ts.
-- Premium: mobile/src/features/premium/services/purchases.ts (Premium.Purchases), over an SDK given
--   by its answers, hooks/usePremium.ts (Premium.Upgrade), and utils/plans.ts with waitlistOffer.ts
--   (Premium.Plans).
-- Matches: mobile/src/features/price-intelligence/services/postConfirmMatches.ts with
--   mobile/src/store/matchPromptStore.ts and routeStore.ts; Matches.Prompt is the screen that asks,
--   mobile/app/items/match.tsx, over the queue of Matches.Suggestions, as steps over any order of taps, answers and renders.
-- Account: mobile/src/features/auth/services/clearLocalAccountData.ts with the stores it resets;
--   Account.Push is mobile/src/features/notifications/registerForPush.ts and releasePushToken.ts;
--   Account.Leaving is mobile/src/features/auth/hooks/useAuth.ts: signing in and out, and deleting
--   the account, with its calls of the server by Auth.Client.
-- Budget: mobile/src/features/budget/utils/trendHighlights.ts and monthOverMonth.ts; Budget.Period is
--   period.ts there; Budget.Caps is capBreach.ts and adaptDashboard of
--   mobile/app/(tabs)/(budget)/index.tsx; Budget.Settings is mobile/app/budget-settings.tsx, a save as
--   the list of its calls to a server that is given by its answers.
-- Prices: split.ts and storeComparison.ts of mobile/src/features/price-intelligence/utils;
--   Prices.Trend and Prices.Chart are priceTrend.ts there, Prices.Alerts priceAlertRows.ts.
-- Reports: mobile/src/features/settings/utils/exportRange.ts; Reports.Export is the screen
--   mobile/app/settings/export-data.tsx, Reports.Download the export itself, exportApi.ts of the same
--   feature with hooks/useExportData.ts.
--
-- How the parts interact: Scan puts photos into Queue and reads failures by Errors; Queue.Sync
-- uploads them and reads failures the same way; Auth.Client changes the session of Auth.Store, whose
-- changes Auth.Taps follows; Account drops an account's part of Queue and clears that session.
-- Review.Screen sends what Review.Corrections of the form gives; Scan.Scanner submits its pages by
-- Scan.Submission; Budget, Prices and Reports count dates by Calendar and Reports.
--
-- Texts are native strings, compared code point by code point. Amounts and quantities of a receipt
-- are elements of any type with a test of equality, since this code only compares them; the review
-- form, which computes with them, takes integers of thousandths. Elsewhere a price is a natural
-- number of cents, and quotients are exact before they are rounded. Counts and times are natural
-- numbers: the counters start at 0 and grow by one, far from the bounds of a JavaScript number.
-- Loops run over finite lists and need no fuel, but for the months of a chart, whose fuel is the
-- number of days the chart spans, and no month is shorter than a day. An optional field that the
-- code only tests for truth is a Bool.
--
-- Not modelled: the rendering of the screens, the printing of dates and amounts, the platform's
-- pickers, camera, keychain and notification centre (they are arguments), the thin wrappers of the
-- web API, and the server. Auth.Client takes the requests to the API one at a time.
pub mod Base
pub mod Errors
pub mod Account
pub mod Auth
pub mod Budget
pub mod Calendar
pub mod Categories
pub mod Manual
pub mod Matches
pub mod Premium
pub mod Prices
pub mod Queue
pub mod Reports
pub mod Review
pub mod Scan
