-- ===== src/Libcontainer/Init/Marks.antt =====
-- The marks that the init process (libcontainer/init_nabla.go) leaves in the record of its calls.
use runnc.Base.{refl, List, [], ◌∷◌}
use runnc.Os.{Os, World, Event, called, handed, Call, Ret, HandlerCall, open_at, hand_over, Leaves}

-- What is watched: the handovers, and the opening of a file in a directory, which is that of the fifo.
pub data Mark : Type 0 where
  hands : HandlerCall → Mark
  opens : Mark

abbrev open_mark : {r : Ret} → Call r → List Mark → List Mark
open_mark (open_at d p) rest = opens ∷ rest
open_mark _ rest = rest

abbrev pub marks : List Event → List Mark
marks [] = []
marks (called c ∷ events) = open_mark c (marks events)
marks (handed h ∷ events) = hands h ∷ marks events

module _ ⦃os : Os⦄ where
  pub hands_over : (h : HandlerCall) (w : World) → Leaves marks (hand_over h) (hands h ∷ []) w
  hands_over h w = record {
    left = hands h ∷ [];
    missed = [];
    trace_is = refl;
    parts = refl;
    whole = λ d. refl;
  }
