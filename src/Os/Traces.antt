-- ===== src/Os/Traces.antt =====
-- What code leaves in the record of its calls, whichever of its steps fails: the marks of a block come
-- from those of its steps. What counts as a mark is a parameter.
use mathlib.Core.List.{append_assoc, append-nil}
use mathlib.Core.Path.{subst}
use runnc.Base.{◌≡◌, refl, sym, ap, ◌∙◌, String, List, [], ◌∷◌, ◌++◌, arith}
use runnc.Go.{Outcome, ok, err, stop, GoError}
use runnc.Os.Calls.{Os, Event}
use runnc.Os.Monad.{World, M, ◌>>=◌, wrapping}
use runnc.Os.Rules.{>>=-ok}

module _ ⦃os : Os⦄ {K : Type 0} (marks : List Event → List K) where
  -- Code that leaves the marks `full`, newest first, when it returns, and otherwise those of a
  -- beginning of its run.
  pub record Leaves {A : Type 0} (m : M A) (full : List K) (w : World) : Type 0 where
    pub left : List K
    pub missed : List K
    pub trace_is : marks (m w).1.trace ≡ left ++ marks w.trace
    pub parts : missed ++ left ≡ full
    pub whole : {a : A} → (m w).0 ≡ ok a → left ≡ full

  pub quiet :
      {A : Type 0} (m : M A) (w : World) → marks (m w).1.trace ≡ marks w.trace → Leaves m [] w
  quiet m w h = record { left = []; missed = []; trace_is = h; parts = refl; whole = λ e. refl }

  pub chain :
      {A B : Type 0} (m : M A) (f : A → M B) (one two : List K) (w : World)
      → Leaves m one w
      → ((a : A) → (m w).0 ≡ ok a → Leaves (f a) two (m w).1)
      → Leaves (m >>= f) (two ++ one) w
  chain {A} {B} m f one two w h k = follow (m w).0 refl
    where
      follow : (q : Outcome A) → (m w).0 ≡ q → Leaves (m >>= f) (two ++ one) w
      follow (ok a) e =
          let g = k a e in
          let same = >>=-ok m f w e in
          record {
            left = g.left ++ h.left;
            missed = g.missed;
            trace_is =
                ap (λ r. marks r.1.trace) same
                ∙ g.trace_is
                ∙ ap (λ l. g.left ++ l) h.trace_is
                ∙ sym (append_assoc g.left h.left (marks w.trace));
            parts =
                sym (append_assoc g.missed g.left h.left)
                ∙ ap (λ l. l ++ h.left) g.parts
                ∙ ap (λ l. two ++ l) (h.whole e);
            whole = λ d.
                ap (λ l. l ++ h.left) (g.whole (sym (ap (λ r. r.0) same) ∙ d))
                ∙ ap (λ l. two ++ l) (h.whole e);
          }
      follow (err x) e = record {
        left = h.left;
        missed = two ++ h.missed;
        trace_is = ground (arith, h.trace_is);
        parts = append_assoc two h.missed h.left ∙ ap (λ l. two ++ l) h.parts;
        whole = λ d. ground arith;
      }
      follow (stop x) e = record {
        left = h.left;
        missed = two ++ h.missed;
        trace_is = ground (arith, h.trace_is);
        parts = append_assoc two h.missed h.left ∙ ap (λ l. two ++ l) h.parts;
        whole = λ d. ground arith;
      }

  explained_ok :
      {A : Type 0} (s : String) (m : M A) (w : World) {a : A}
      → (wrapping s m w).0 ≡ ok a
      → (m w).0 ≡ ok a
  explained_ok s m w h = ground arith

  pub explained :
      {A : Type 0} (s : String) (m : M A) (full : List K) (w : World)
      → Leaves m full w
      → Leaves (wrapping s m) full w
  explained s m full w h = record {
    left = h.left;
    missed = h.missed;
    trace_is = h.trace_is;
    parts = h.parts;
    whole = λ d. h.whole (explained_ok s m w d);
  }

  pub single :
      {A : Type 0} (m : M A) (k : K) (w : World)
      → marks (m w).1.trace ≡ k ∷ marks w.trace
      → Leaves m (k ∷ []) w
  single m k w h = record {
    left = k ∷ [];
    missed = [];
    trace_is = h;
    parts = refl;
    whole = λ d. refl;
  }

  -- Code that fails before it leaves a mark.
  pub refusal :
      {A : Type 0} (m : M A) (full : List K) (w : World) {e : GoError}
      → (m w).0 ≡ err e
      → marks (m w).1.trace ≡ marks w.trace
      → Leaves m full w
  refusal m full w h k = record {
    left = [];
    missed = full;
    trace_is = k;
    parts = append-nil full;
    whole = λ d. ground arith;
  }

  -- A first step that leaves no marks.
  pub chain_quiet :
      {A B : Type 0} (m : M A) (f : A → M B) (full : List K) (w : World)
      → Leaves m [] w
      → ((a : A) → (m w).0 ≡ ok a → Leaves (f a) full (m w).1)
      → Leaves (m >>= f) full w
  chain_quiet m f full w h k =
      subst (λ l. Leaves (m >>= f) l w) (append-nil full) (chain m f [] full w h k)
