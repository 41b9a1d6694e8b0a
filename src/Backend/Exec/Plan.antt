-- ===== src/Backend/Exec/Plan.antt =====
-- A list of calls, made one after the other up to the first that fails: the abstract form of the
-- handlers that only work through a fixed list.
use mathlib.Core.List.{append_assoc, append-nil}
use mathlib.Core.Path.{subst⁻¹}
use csi_driver_for_windows_s.Prelude.{
  ◌≡◌, refl, sym, ap, ◌∙◌, Bool, true, false, if◌then◌else◌, List, [], ◌∷◌, ◌++◌, none, some,
  Option-cases, inl, inr, Result, ok, err,
}
use csi_driver_for_windows_s.Backend.{Call, Reply, Backend}
use csi_driver_for_windows_s.Backend.Exec.{
  Code, internal, World, Exec, pure, continue, ◌>>=◌, ◌▷◌, invoke,
}

-- A last call gives its own result.
pub continue-pure :
    {S : Type 0} (r : Result Code (Unit {0})) (w : World S) → continue r (λ _. pure tt) w ≡ (r, w)
continue-pure (ok a) w = refl
continue-pure (err c) w = refl

continue-eq :
    {S A : Type 0} (r : Result Code A) (m n : Exec S (Unit {0}))
    → ((w : World S) → m w ≡ n w)
    → (w : World S) → continue r (λ _. m) w ≡ continue r (λ _. n) w
continue-eq (ok a) m n h w = h w
continue-eq (err c) m n h w = refl

module _ {S : Type 0} (b : Backend S) where
  unfoldable pub run_all : List Call → Exec S (Unit {0})
  run_all [] = pure tt
  run_all (c ∷ calls) = invoke b c >>= λ _. run_all calls

  -- The backend answers all calls, one after the other, and goes from the state `s` to `s'`.
  pub AreAnswered : List Call → (s s' : S) → Type 0
  AreAnswered [] s s' = s' ≡ s
  AreAnswered (c ∷ calls) s s' =
      ((a : Reply c) × ((b.perform c s).0 ≡ some a)) × AreAnswered calls (b.perform c s).1 s'

  -- The backend fails at a call, after it has answered those before it.
  pub record FailsAt (before : List Call) (c : Call) (s s' : S) : Type 0 where
    pub reached : S
    pub are_answered : AreAnswered before s reached
    pub is_refused : (b.perform c reached).0 ≡ none
    pub is_last : s' ≡ (b.perform c reached).1

  -- How a run ends: all calls are made, or those up to one that fails are.
  pub data Ran (calls : List Call) (w : World S) : Type 0 where
    all_made :
        (run_all calls w).0 ≡ ok tt
        → AreAnswered calls w.state (run_all calls w).1.state
        → (run_all calls w).1.trace ≡ w.trace ++ calls
        → Ran calls w
    stopped_at :
        (before : List Call) (c : Call) (after : List Call)
        → calls ≡ before ++ c ∷ after
        → (run_all calls w).0 ≡ err internal
        → FailsAt before c w.state (run_all calls w).1.state
        → (run_all calls w).1.trace ≡ (w.trace ++ before) ▷ c
        → Ran calls w

  -- The world behind a call.
  behind : Call → World S → World S
  unfolding invoke
  behind c w = (invoke b c w).1

  run_all-∷ :
      (c : Call) (calls : List Call) (w : World S) (a : Reply c)
      → (b.perform c w.state).0 ≡ some a
      → run_all (c ∷ calls) w ≡ run_all calls (behind c w)
  unfolding run_all invoke behind
  run_all-∷ c calls w a h = rw h refl

  run_all-failed :
      (c : Call) (calls : List Call) (w : World S)
      → (b.perform c w.state).0 ≡ none
      → run_all (c ∷ calls) w ≡ (err internal, behind c w)
  unfolding run_all invoke behind
  run_all-failed c calls w h = rw h refl

  Ran-∷ :
      (c : Call) (calls : List Call) (w : World S) (a : Reply c)
      → (b.perform c w.state).0 ≡ some a
      → run_all (c ∷ calls) w ≡ run_all calls (behind c w)
      → Ran calls (behind c w)
      → Ran (c ∷ calls) w
  unfolding behind invoke AreAnswered
  Ran-∷ c calls w a h e (all_made r q t) =
      all_made (ap (λ x. x.0) e ∙ r)
        ((a, h), subst⁻¹ (λ x. AreAnswered calls (behind c w).state x.1.state) e q)
        (ap (λ x. x.1.trace) e ∙ t ∙ append_assoc w.trace (c ∷ []) calls)
  Ran-∷ c calls w a h e (stopped_at before d after split r q t) =
      stopped_at (c ∷ before) d after (ap (λ l. c ∷ l) split) (ap (λ x. x.0) e ∙ r)
        (record {
          reached = q.reached;
          are_answered = ((a, h), q.are_answered);
          is_refused = q.is_refused;
          is_last = ap (λ x. x.1.state) e ∙ q.is_last;
        })
        (ap (λ x. x.1.trace) e ∙ t ∙ ap (λ l. l ▷ d) (append_assoc w.trace (c ∷ []) before))

  -- A run of a list of calls makes them in their order: all of them, with success, or those up to and
  -- with the first that fails, with the code of an internal error.
  pub run_all-Ran : (calls : List Call) (w : World S) → Ran calls w
  unfolding run_all invoke behind AreAnswered
  run_all-Ran [] w = all_made refl refl (sym (append-nil w.trace))
  run_all-Ran (c ∷ calls) w =
      let later = run_all-Ran calls (behind c w) in
      elim (Option-cases (b.perform c w.state).0) [
        | inl h ↦
            let e = run_all-failed c calls w h in
            stopped_at [] c calls refl (ap (λ x. x.0) e)
              (record {
                reached = w.state;
                are_answered = refl;
                is_refused = h;
                is_last = ap (λ x. x.1.state) e;
              })
              (ap (λ x. x.1.trace) e ∙ ap (λ l. l ▷ c) (sym (append-nil w.trace)))
        | inr (a, h) ↦ Ran-∷ c calls w a h (run_all-∷ c calls w a h) later
      ]

  -- A list of calls in two parts.
  pub run_all-append :
      (calls later : List Call) (w : World S)
      → run_all (calls ++ later) w ≡ (run_all calls >>= λ _. run_all later) w
  unfolding run_all
  run_all-append [] later w = refl
  run_all-append (c ∷ calls) later w = elim (Option-cases (b.perform c w.state).0) [
    | inl h ↦
        run_all-failed c (calls ++ later) w h
        ∙ ap (λ x. continue x.0 (λ _. run_all later) x.1) (sym (run_all-failed c calls w h))
    | inr (a, h) ↦
        run_all-∷ c (calls ++ later) w a h
        ∙ run_all-append calls later (behind c w)
        ∙ ap (λ x. continue x.0 (λ _. run_all later) x.1) (sym (run_all-∷ c calls w a h))
  ]

  -- Calls that are made under a condition.
  pub run_all-if :
      (t : Bool) (m : Exec S (Unit {0})) (calls : List Call) (w : World S)
      → m w ≡ run_all calls w
      → (if t then m else pure tt) w ≡ run_all (if t then calls else []) w
  unfolding run_all
  run_all-if true m calls w h = h
  run_all-if false m calls w h = refl

  pub run_all->>= :
      (m n : Exec S (Unit {0})) (calls later : List Call) (w : World S)
      → m w ≡ run_all calls w
      → ((w' : World S) → n w' ≡ run_all later w')
      → (m >>= λ _. n) w ≡ run_all (calls ++ later) w
  run_all->>= m n calls later w h k =
      ap (λ x. continue x.0 (λ _. n) x.1) h
      ∙ continue-eq (run_all calls w).0 n (run_all later) k (run_all calls w).1
      ∙ sym (run_all-append calls later w)
