-- ===== src/Queue/Sync/Loop.antt =====
-- The proof rule of the upload loop: what a round that stops shows, and what one that goes on
-- keeps.
use grocery_genie.Queue.Sync.{Run, Verdict, go_on, stop, follow}

abbrev pub Judge : (Run → Type 0) → (Run → Type 0) → Verdict → Type 0
Judge Halt More (go_on v) = More v
Judge Halt More (stop v) = Halt v

pub follow_rule :
    (Halt More : Run → Type 0) (d : Verdict)
    → Judge Halt More d
    → (k : Run → Run) → ((v : Run) → More v → Halt (k v))
    → Halt (follow d k)
follow_rule Halt More (go_on v) j k more = more v j
follow_rule Halt More (stop v) j k more = j

pub Judge-mono :
    (Halt More Halt' More' : Run → Type 0) (d : Verdict)
    → Judge Halt More d
    → ((v : Run) → Halt v → Halt' v)
    → ((v : Run) → More v → More' v)
    → Judge Halt' More' d
Judge-mono Halt More Halt' More' (go_on v) j f g = g v j
Judge-mono Halt More Halt' More' (stop v) j f g = f v j
