-- ===== src/Exec/Trace.antt =====
-- Which calls a handler makes: rules for each way to build a handler.
use mathlib.Core.List.{append_assoc, append-nil}
use mathlib.Core.Path.{subst}
use csi_driver_for_windows_s.Prelude.{
  ◌≡◌, refl, sym, ap, ◌∙◌, Bool, true, false, List, [], ◌∷◌, ◌++◌, All, All-append, Result, ok, err,
  ok_eq, if◌then◌else◌,
}
use csi_driver_for_windows_s.Exec.{
  Code, World, Exec, pure, fail, lift, stop_if, continue, ◌>>=◌, ◌>>◌,
}

-- Every call that `m` makes has the property `P`, whether `m` returns or fails.
pub record MakesOnly {C S A : Type 0} (P : C → Type 0) (m : Exec C S A) : Type 0 where
  pub at : (w : World C S) → (calls : List C) × ((m w).1.trace ≡ w.trace ++ calls) × All P calls

All-weaken :
    {C : Type 0} {P Q : C → Type 0} (calls : List C)
    → ((c : C) → P c → Q c)
    → All P calls
    → All Q calls
All-weaken [] f h = tt
All-weaken (c ∷ calls) f (p, h) = (f c p, All-weaken calls f h)

module _ {C S A : Type 0} {P : C → Type 0} where
  pub MakesOnly-map :
      {Q : C → Type 0} {m : Exec C S A} → ((c : C) → P c → Q c) → MakesOnly P m → MakesOnly Q m
  MakesOnly-map f h = record {
    at = λ w. let (calls, e, p) = h.at w in (calls, e, All-weaken calls f p);
  }

  pub MakesOnly-lift : (r : Result Code A) → MakesOnly {S = S} P (lift r)
  MakesOnly-lift r = record { at = λ w. ([], sym (append-nil w.trace), tt) }

  pub MakesOnly-pure : (a : A) → MakesOnly {S = S} P (pure a)
  MakesOnly-pure a = record { at = λ w. ([], sym (append-nil w.trace), tt) }

  pub MakesOnly-if :
      (t : Bool) {m n : Exec C S A}
      → (t ≡ true → MakesOnly P m)
      → (t ≡ false → MakesOnly P n)
      → MakesOnly P (if t then m else n)
  MakesOnly-if true h k = h refl
  MakesOnly-if false h k = k refl

module _ {C S : Type 0} {P : C → Type 0} where
  pub MakesOnly-stop_if : (t : Bool) (c : Code) → MakesOnly {S = S} P (stop_if t c)
  MakesOnly-stop_if true c = record { at = λ w. ([], sym (append-nil w.trace), tt) }
  MakesOnly-stop_if false c = record { at = λ w. ([], sym (append-nil w.trace), tt) }

module _ {C S A B : Type 0} {P : C → Type 0} where
  -- The rest of a handler, behind the result of its first part.
  MakesOnly-continue :
      (r : Result Code A) (f : A → Exec C S B)
      → ((a : A) → r ≡ ok a → MakesOnly P (f a))
      → MakesOnly P (continue r f)
  MakesOnly-continue (ok a) f h = h a refl
  MakesOnly-continue (err c) f h = record { at = λ w. ([], sym (append-nil w.trace), tt) }

  pub MakesOnly-bind :
      {m : Exec C S A} {f : A → Exec C S B}
      → MakesOnly P m
      → ((a : A) → MakesOnly P (f a))
      → MakesOnly P (m >>= f)
  MakesOnly-bind {m = m} {f = f} h k = record {
    at = λ w.
        let (r, w') = m w in
        let (first, e, p) = h.at w in
        let (later, e', q) = (MakesOnly-continue r f (λ a _. k a)).at w' in
        (
          first ++ later,
          e' ∙ ap (λ t. t ++ later) e ∙ append_assoc w.trace first later,
          All-append P first later p q,
        );
  }

module _ {C S A : Type 0} {P : C → Type 0} where
  -- Behind a test that did not stop the handler.
  pub MakesOnly-behind :
      (t : Bool) (c : Code) {m : Exec C S A}
      → (t ≡ false → MakesOnly P m)
      → MakesOnly P (stop_if t c >> m)
  MakesOnly-behind true c h = record { at = λ w. ([], sym (append-nil w.trace), tt) }
  MakesOnly-behind false c h = record { at = λ w. (h refl).at w }

-- What `m` returns, if it returns, has the property `Q`.
pub record Yields {C S A : Type 0} (Q : A → Type 0) (m : Exec C S A) : Type 0 where
  pub yield : (w : World C S) (a : A) → (m w).0 ≡ ok a → Q a

module _ {C S A B : Type 0} where
  Yields-continue :
      (Q : B → Type 0) (r : Result Code A) (f : A → Exec C S B) (w : World C S) (b : B)
      → ((a : A) → Yields Q (f a))
      → (continue r f w).0 ≡ ok b
      → Q b
  Yields-continue Q (ok a) f w b h e = (h a).yield w b e
  Yields-continue Q (err c) f w b h e = cc

  Yields-continue_from :
      (Q : B → Type 0) (R : A → Type 0) (r : Result Code A) (f : A → Exec C S B) (w : World C S)
      (b : B)
      → ((a : A) → r ≡ ok a → R a)
      → ((a : A) → R a → Yields Q (f a))
      → (continue r f w).0 ≡ ok b
      → Q b
  Yields-continue_from Q R (ok a) f w b y h e = (h a (y a refl)).yield w b e
  Yields-continue_from Q R (err c) f w b y h e = cc

  pub Yields-bind :
      {Q : B → Type 0} (m : Exec C S A) {f : A → Exec C S B}
      → ((a : A) → Yields Q (f a))
      → Yields Q (m >>= f)
  Yields-bind {Q = Q} m {f = f} h = record {
    yield = λ w b e. Yields-continue Q (m w).0 f (m w).1 b h e;
  }

  -- As above, where the first part yields only results with the property `R`.
  pub Yields-bind_yielded :
      {Q : B → Type 0} (R : A → Type 0) {m : Exec C S A} {f : A → Exec C S B}
      → Yields R m
      → ((a : A) → R a → Yields Q (f a))
      → Yields Q (m >>= f)
  Yields-bind_yielded {Q = Q} R {m = m} {f = f} y h = record {
    yield = λ w b e. Yields-continue_from Q R (m w).0 f (m w).1 b (y.yield w) h e;
  }

  -- The rest of a handler is only asked for the results that the first part yields.
  pub MakesOnly-bind_yielded :
      {P : C → Type 0} (Q : A → Type 0) {m : Exec C S A} {f : A → Exec C S B}
      → MakesOnly P m
      → Yields Q m
      → ((a : A) → Q a → MakesOnly P (f a))
      → MakesOnly P (m >>= f)
  MakesOnly-bind_yielded {P = P} Q {m = m} {f = f} h y k = record {
    at = λ w.
        let (first, e, p) = h.at w in
        let (later, e', q) =
          (MakesOnly-continue (m w).0 f (λ a r. k a (y.yield w a r))).at (m w).1 in
        (
          first ++ later,
          e' ∙ ap (λ t. t ++ later) e ∙ append_assoc w.trace first later,
          All-append P first later p q,
        );
  }

module _ {C S A : Type 0} {Q : A → Type 0} where
  pub Yields-pure : (a : A) → Q a → Yields {C = C} {S = S} Q (pure a)
  Yields-pure a q = record { yield = λ w b e. subst Q (ok_eq e) q }

  pub Yields-fail : (c : Code) → Yields {C = C} {S = S} Q (fail c)
  Yields-fail c = record { yield = λ w b e. cc }

  pub Yields-if :
      (t : Bool) {m n : Exec C S A} → Yields Q m → Yields Q n → Yields Q (if t then m else n)
  Yields-if true h k = h
  Yields-if false h k = k

  pub Yields-behind :
      (t : Bool) (c : Code) {m : Exec C S A}
      → (t ≡ false → Yields Q m)
      → Yields Q (stop_if t c >> m)
  Yields-behind true c h = record { yield = λ w b e. cc }
  Yields-behind false c h = record { yield = (h refl).yield }
