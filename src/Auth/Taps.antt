-- ===== src/Auth/Taps.antt =====
-- The push tap that waits to be opened: mobile/src/features/notifications/pendingTap.ts, and where
-- a tap leads: notificationTap.ts. The stores, the module's `taken` set and the tap that iOS stored
-- are one state; `opened` lists the taps handed out so far, newest first.
pub mod Once
pub mod Routes
use Prim.Native.Char.{code}
use Prim.Native.String
use grocery_genie.Base.{
  ℕ, zero, suc, ◌+◌, ◌-◌, ◌*◌, ◌/◌, ◌%◌, ◌≤◌, ◌<◌, String, ◌≡◌, refl, sym, ap, subst, ◌∙◌, ◌≢◌, ◌↔◌,
  ◌⊎◌, inl, inr, Bool, true, false, not, ◌&&◌, ◌||◌, Option, none, some, List, [], ◌∷◌, ◌++◌, map,
  append-nil, append_assoc, map-append, arith, str_eq, eq_iff, eq_refl, ltb, leb, ◌==◌,
  if◌then◌else◌, ltb→lt, leb→le, ==_iff, Bool-cases, Option-cases, or_else, is_some, length, select,
  find, any, take, drop, All, length-append, All-append, All-map, All-select, All-select_of,
  length-take-le, select-append,
}
use grocery_genie.Auth.Store.{Session}

-- What a push carries, each field `none` if it is missing or not a text.
pub record PushData : Type 0 where
  pub notification_id : Option String
  pub type : Option String
  pub canonical_item_id : Option String
  pub url : Option String

-- A notification response; `opens` says that its action is the default one.
pub record Tap : Type 0 where
  pub id : String
  pub opens : Bool
  pub content : PushData

pub record State : Type 0 where
  pub pending : Option Tap
  pub taken : List String
  pub stored : Option Tap
  pub session : Session
  pub opened : List String

abbrev pub has : String → List String → Bool
has i is = any (λ j. str_eq j i) is

-- A text that is null or empty is false.
abbrev pub truthy : Option String → Bool
truthy none = false
truthy (some t) = not (str_eq t "")

abbrev pub signed_out : Session → Bool
signed_out a = a.hydrated && not (truthy a.access_token)

-- `clears`: the platform can forget the tap that it stored.
unfoldable pub spend : Bool → String → State → State
spend clears i s = record s { taken = i ∷ s.taken; stored = if clears then none else s.stored }

abbrev pub holds : Option Tap → String → Bool
holds none i = false
holds (some t) i = str_eq t.id i

unfoldable pub offer_tap : Bool → Option Tap → State → State
unfolding spend
offer_tap clears none s = s
offer_tap clears (some t) s =
    if not t.opens
    then s
    else if has t.id s.taken
    then s
    else if signed_out s.session
    then spend clears t.id s
    else if holds s.pending t.id
    then s
    else record s { pending = some t }

abbrev pub take_from : Bool → Option Tap → State → State × Option Tap
take_from clears none s = (s, none)
take_from clears (some t) s =
    (record (spend clears t.id s) { pending = none; opened = t.id ∷ s.opened }, some t)

unfoldable pub take_tap : Bool → State → State × Option Tap
take_tap clears s = take_from clears s.pending s

abbrev pub differ : Option String → Option String → Bool
differ none b = false
differ (some a) none = false
differ (some a) (some b) = not (str_eq a b)

abbrev pub switched : Session → Session → Bool
switched prev next = truthy prev.user_id && truthy next.user_id && differ prev.user_id next.user_id

abbrev pub drop_held : Bool → Option Tap → State → State
drop_held clears none s = s
drop_held clears (some t) s = record (spend clears t.id s) { pending = none }

-- The subscription to the session.
unfoldable pub session_changed : Bool → Session → State → State
session_changed clears next s =
    let s' = record s { session = next } in
    if signed_out next || switched s.session next then drop_held clears s.pending s' else s'

-- captureTaps(), with the listener already on.
unfoldable pub capture_taps : Bool → State → State
capture_taps clears s = offer_tap clears s.stored s

pub data Event : Type 0 where
  arrived : Tap → Event
  captured : Event
  opened_next : Event
  session_is : Session → Event

unfoldable pub step : Bool → Event → State → State
unfolding capture_taps take_tap
step clears (arrived t) s = offer_tap clears (some t) (record s { stored = some t })
step clears captured s = capture_taps clears s
step clears opened_next s = (take_tap clears s).0
step clears (session_is a) s = session_changed clears a s

unfoldable pub run : Bool → List Event → State → State
run clears [] s = s
run clears (e ∷ es) s = run clears es (step clears e s)

-- /^[A-Za-z0-9-]+$/
abbrev pub id_char : ℕ → Bool
id_char c =
    (leb b'A' c && leb c b'Z')
    || (leb b'a' c && leb c b'z')
    || (leb b'0' c && leb c b'9')
    || c == b'-'

unfoldable pub id_chars : String → Bool
id_chars String.[] = true
id_chars (String.◌∷◌ c s) = id_char (code c) && id_chars s

unfoldable pub is_item_id : String → Bool
unfolding id_chars
is_item_id s = not (str_eq s "") && id_chars s

-- url.startsWith('/') && !url.startsWith('//')
unfoldable pub no_slash : String → Bool
no_slash String.[] = true
no_slash (String.◌∷◌ c s) = not (code c == b'/')

unfoldable pub is_in_app_path : String → Bool
unfolding no_slash
is_in_app_path String.[] = false
is_in_app_path (String.◌∷◌ c s) = code c == b'/' && no_slash s

abbrev pub is_price_change : Option String → Bool
is_price_change none = false
is_price_change (some t) = str_eq t "price_change"

abbrev pub item_route : Option String → String
item_route none = "/"
item_route (some i) = if is_item_id i then String.◌++◌ "/items/" i else "/"

abbrev pub url_route : Option String → String
url_route none = "/"
url_route (some u) = if is_in_app_path u then u else "/"

-- parseNotificationTap: the notification to mark as read, and the route.
unfoldable pub parse_notification_tap : PushData → Option String × String
unfolding is_item_id is_in_app_path
parse_notification_tap d = (
  d.notification_id,
  (if is_price_change d.type then item_route d.canonical_item_id else url_route d.url),
)
