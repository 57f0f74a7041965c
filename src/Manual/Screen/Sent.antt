-- ===== src/Manual/Screen/Sent.antt =====
-- What the screen for entering a receipt sends, and how often.
use grocery_genie.Base.{nat_eq, string_eq, ◌+◌, ◌≡◌, if◌then◌else◌, length, All}
use grocery_genie.Manual.{ManualEntry}
use grocery_genie.Manual.Lines.{IsSound}

-- Each receipt sent is answered once, but for the one that is pending.
abbrev pub IsAnswered : ManualEntry → Type 0
IsAnswered e =
    (length e.sent ≡ e.went_back + e.alerts + (if e.mutation_pending then 1 else 0))
    × (length e.prompted ≡ e.went_back)

abbrev Inv : ManualEntry → Type 0
Inv e = All IsSound e.sent × IsAnswered e
