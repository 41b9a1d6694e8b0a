-- ===== src/Exec/Order.antt =====
-- In which order a handler makes its calls: each call has a phase or none, and the phases do not fall.
use mathlib.Core.List.{append_assoc, append-nil}
use mathlib.Core.Path.{subst⁻¹}
use csi_driver_for_windows_s.Prelude.{
  ℕ, ◌≤◌, ◌≡◌, sym, ap, ◌∙◌, arith, Bool, true, false, Option, none, some, List, [], ◌∷◌, ◌++◌,
  Result, ok, err, if◌then◌else◌,
}
use csi_driver_for_windows_s.Exec.{Code, World, Exec, pure, fail, lift, stop_if, continue, ◌>>=◌}

-- A call in phase `p` stands behind calls of phases up to `low`.
abbrev Enters : Option ℕ → ℕ → (ℕ → Type 0) → Type 0
Enters none low Rest = Rest low
Enters (some p) low Rest = (low ≤ p) × Rest p

module _ {C : Type 0} (phase : C → Option ℕ) where
  -- The phases of the calls begin at `low` or later, do not fall, and end at `high` or before.
  abbrev pub IsRising : ℕ → List C → ℕ → Type 0
  IsRising low [] high = low ≤ high
  IsRising low (c ∷ calls) high = Enters (phase c) low (λ p. IsRising p calls high)

  Enters-lower :
      (o : Option ℕ) (low mid : ℕ) (P : ℕ → Type 0)
      → ((a b : ℕ) → a ≤ b → P b → P a)
      → low ≤ mid
      → Enters o mid P
      → Enters o low P
  Enters-lower none low mid P down h r = down low mid h r
  Enters-lower (some p) low mid P down h (k, r) = (omega arith, r)

  pub IsRising-lower :
      (calls : List C) (high low mid : ℕ)
      → low ≤ mid
      → IsRising mid calls high
      → IsRising low calls high
  IsRising-lower [] high low mid h r = omega arith
  IsRising-lower (c ∷ calls) high low mid h r =
      Enters-lower (phase c) low mid (λ p. IsRising p calls high)
        (λ a b. IsRising-lower calls high a b) h r

  Enters-map :
      (o : Option ℕ) (low : ℕ) (P Q : ℕ → Type 0)
      → ((a : ℕ) → P a → Q a)
      → Enters o low P
      → Enters o low Q
  Enters-map none low P Q f r = f low r
  Enters-map (some p) low P Q f (k, r) = (k, f p r)

  IsRising-append :
      (calls later : List C) (low mid high : ℕ)
      → IsRising low calls mid
      → IsRising mid later high
      → IsRising low (calls ++ later) high
  IsRising-append [] later low mid high r q = IsRising-lower later high low mid r q
  IsRising-append (c ∷ calls) later low mid high r q =
      Enters-map (phase c) low (λ p. IsRising p calls mid) (λ p. IsRising p (calls ++ later) high)
        (λ p r'. IsRising-append calls later p mid high r' q) r

  -- A call of the phase in which the others begin.
  pub IsRising-next :
      (c : C) (calls : List C) (p high : ℕ)
      → phase c ≡ some p
      → IsRising p calls high
      → IsRising p (c ∷ calls) high
  IsRising-next c calls p high h r =
      subst⁻¹ (λ o. Enters o p (λ q. IsRising q calls high)) h (omega arith, r)

  IsRising-higher :
      (calls : List C) (low mid high : ℕ)
      → mid ≤ high
      → IsRising low calls mid
      → IsRising low calls high
  IsRising-higher [] low mid high h r = omega arith
  IsRising-higher (c ∷ calls) low mid high h r =
      Enters-map (phase c) low (λ p. IsRising p calls mid) (λ p. IsRising p calls high)
        (λ p r'. IsRising-higher calls p mid high h r') r

-- The calls that `m` makes rise from `low` to `high`, whether `m` returns or fails.
pub record Rises {C S A : Type 0} (phase : C → Option ℕ) (low high : ℕ) (m : Exec C S A)
    : Type 0 where
  pub at :
      (w : World C S)
      → (calls : List C) × ((m w).1.trace ≡ w.trace ++ calls) × IsRising phase low calls high

module _ {C S A : Type 0} {phase : C → Option ℕ} {low high : ℕ} where
  pub Rises-lift : (r : Result Code A) → low ≤ high → Rises {S = S} phase low high (lift r)
  Rises-lift r h = record { at = λ w. ([], sym (append-nil w.trace), h) }

  pub Rises-pure : (a : A) → low ≤ high → Rises {S = S} phase low high (pure a)
  Rises-pure a h = record { at = λ w. ([], sym (append-nil w.trace), h) }

  pub Rises-fail : (c : Code) → low ≤ high → Rises {S = S} {A = A} phase low high (fail c)
  Rises-fail c h = record { at = λ w. ([], sym (append-nil w.trace), h) }

  pub Rises-if :
      (t : Bool) {m n : Exec C S A}
      → Rises phase low high m
      → Rises phase low high n
      → Rises phase low high (if t then m else n)
  Rises-if true h k = h
  Rises-if false h k = k

module _ {C S : Type 0} {phase : C → Option ℕ} {low high : ℕ} where
  pub Rises-stop_if :
      (t : Bool) (c : Code) → low ≤ high → Rises {S = S} phase low high (stop_if t c)
  Rises-stop_if true c h = record { at = λ w. ([], sym (append-nil w.trace), h) }
  Rises-stop_if false c h = record { at = λ w. ([], sym (append-nil w.trace), h) }

module _ {C S A B : Type 0} {phase : C → Option ℕ} (low mid high : ℕ) where
  Rises-continue :
      (r : Result Code A) (f : A → Exec C S B)
      → mid ≤ high
      → ((a : A) → Rises phase mid high (f a))
      → Rises phase mid high (continue r f)
  Rises-continue (ok a) f h k = k a
  Rises-continue (err c) f h k = record { at = λ w. ([], sym (append-nil w.trace), h) }

  -- One part behind another.
  pub Rises-bind :
      {m : Exec C S A} {f : A → Exec C S B}
      → mid ≤ high
      → Rises phase low mid m
      → ((a : A) → Rises phase mid high (f a))
      → Rises phase low high (m >>= f)
  Rises-bind {m = m} {f = f} le h k = record {
    at = λ w.
        let (r, w') = m w in
        let (first, e, p) = h.at w in
        let (later, e', q) = (Rises-continue r f le k).at w' in
        (
          first ++ later,
          e' ∙ ap (λ t. t ++ later) e ∙ append_assoc w.trace first later,
          IsRising-append phase first later low mid high p q,
        );
  }
