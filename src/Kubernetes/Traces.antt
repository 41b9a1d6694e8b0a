-- ===== src/Kubernetes/Traces.antt =====
-- Which calls the parts of the provisioner and of the attacher make, and in which order: the rules for
-- the calls themselves.
use csi_driver_for_windows_s.Prelude.{
  ℕ, ◌≤◌, ◌≡◌, refl, ap, Option, some, List, [], ◌∷◌, ◌++◌, map, All, Result, ok, err, arith,
}
use csi_driver_for_windows_s.Exec.{unknown, World, Exec, pure, fail, ◌▷◌}
use csi_driver_for_windows_s.Exec.Trace.{
  MakesOnly, MakesOnly-bind, MakesOnly-pure, MakesOnly-lift, Yields,
}
use csi_driver_for_windows_s.Exec.Order.{
  IsRising, IsRising-next, IsRising-lower, Rises, Rises-bind, Rises-pure, Rises-fail,
}
use csi_driver_for_windows_s.Backend.{Call}
use csi_driver_for_windows_s.Kubernetes.Cluster.{
  ApiError, object_not_found, object_already_exists, other_error, accept_missing, ApiCall, ApiReply,
  Cluster, ClusterCall, api, backend, ClusterExec, on_answer, with_answer, try_request, request,
  on_backend, ignoring,
}

All-map :
    (P : ClusterCall → Type 0) (calls : List Call)
    → All (λ c. P (backend c)) calls
    → All P (map backend calls)
All-map P [] h = tt
All-map P (c ∷ calls) (p, h) = (p, All-map P calls h)

module _ {S : Type 0} (k : Cluster S) (P : ClusterCall → Type 0) where
  pub MakesOnly-try_request : (c : ApiCall) → P (api c) → MakesOnly P (try_request k c)
  unfolding try_request
  MakesOnly-try_request c p = record { at = λ w. (api c ∷ [], refl, (p, tt)) }

  MakesOnly-on_answer :
      {A B : Type 0} (r : Result ApiError A) {good : A → ClusterExec S B}
      {bad : ApiError → ClusterExec S B}
      → ((a : A) → MakesOnly P (good a))
      → ((e : ApiError) → MakesOnly P (bad e))
      → MakesOnly P (on_answer r good bad)
  MakesOnly-on_answer (ok a) g b = g a
  MakesOnly-on_answer (err e) g b = b e

  pub MakesOnly-with_answer :
      {B : Type 0} (c : ApiCall) {good : ApiReply c → ClusterExec S B}
      {bad : ApiError → ClusterExec S B}
      → P (api c)
      → ((a : ApiReply c) → MakesOnly P (good a))
      → ((e : ApiError) → MakesOnly P (bad e))
      → MakesOnly P (with_answer k c good bad)
  MakesOnly-with_answer c p g b =
      MakesOnly-bind (MakesOnly-try_request c p) λ r. MakesOnly-on_answer r g b

  pub MakesOnly-accept_missing : (e : ApiError) → MakesOnly {S = S} P (accept_missing e)
  MakesOnly-accept_missing object_not_found = MakesOnly-pure tt
  MakesOnly-accept_missing object_already_exists = MakesOnly-lift (err unknown)
  MakesOnly-accept_missing other_error = MakesOnly-lift (err unknown)

  pub MakesOnly-request : (c : ApiCall) → P (api c) → MakesOnly P (request k c)
  unfolding request
  MakesOnly-request c p =
      MakesOnly-with_answer c p MakesOnly-pure (λ _. MakesOnly-lift (err unknown))

  pub MakesOnly-on_backend :
      {A : Type 0} {m : Exec Call S A}
      → MakesOnly (λ c. P (backend c)) m
      → MakesOnly P (on_backend m)
  unfolding on_backend
  MakesOnly-on_backend {m = m} h = record {
    at = λ w.
        let (calls, e, p) = h.at (record { state = w.state; trace = [] }) in
        (map backend calls, ap (λ t. w.trace ++ map backend t) e, All-map P calls p);
  }

  pub MakesOnly-ignoring :
      {A : Type 0} {m : ClusterExec S A} → MakesOnly P m → MakesOnly P (ignoring m)
  unfolding ignoring
  MakesOnly-ignoring h = record { at = h.at }

module _ {S : Type 0} (k : Cluster S) (phase : ClusterCall → Option ℕ) (low high : ℕ) where
  pub Rises-try_request :
      (c : ApiCall) → IsRising phase low (api c ∷ []) high → Rises phase low high (try_request k c)
  unfolding try_request
  Rises-try_request c p = record { at = λ w. (api c ∷ [], refl, p) }

  Rises-on_answer :
      {A B : Type 0} (r : Result ApiError A) {good : A → ClusterExec S B}
      {bad : ApiError → ClusterExec S B}
      → ((a : A) → Rises phase high high (good a))
      → ((e : ApiError) → Rises phase high high (bad e))
      → Rises phase high high (on_answer r good bad)
  Rises-on_answer (ok a) g b = g a
  Rises-on_answer (err e) g b = b e

  pub Rises-with_answer :
      {B : Type 0} (c : ApiCall) {good : ApiReply c → ClusterExec S B}
      {bad : ApiError → ClusterExec S B}
      → IsRising phase low (api c ∷ []) high
      → ((a : ApiReply c) → Rises phase high high (good a))
      → ((e : ApiError) → Rises phase high high (bad e))
      → Rises phase low high (with_answer k c good bad)
  Rises-with_answer c p g b =
      Rises-bind low high high (omega arith) (Rises-try_request c p) λ r. Rises-on_answer r g b

  pub Rises-accept_missing :
      (e : ApiError) → low ≤ high → Rises {S = S} phase low high (accept_missing e)
  Rises-accept_missing object_not_found h = Rises-pure tt h
  Rises-accept_missing object_already_exists h = Rises-fail unknown h
  Rises-accept_missing other_error h = Rises-fail unknown h

  pub Rises-request :
      (c : ApiCall) → IsRising phase low (api c ∷ []) high → Rises phase low high (request k c)
  unfolding request
  Rises-request c p =
      Rises-with_answer c p (λ a. Rises-pure a (omega arith))
        (λ _. Rises-fail unknown (omega arith))

-- Calls of one phase.
IsRising-map :
    (phase : ClusterCall → Option ℕ) (calls : List Call) (p : ℕ)
    → ((c : Call) → phase (backend c) ≡ some p)
    → IsRising phase p (map backend calls) p
IsRising-map phase [] p h = omega arith
IsRising-map phase (c ∷ calls) p h =
    IsRising-next phase (backend c) (map backend calls) p p (h c) (IsRising-map phase calls p h)

module _ {S A : Type 0} (phase : ClusterCall → Option ℕ) (low p : ℕ) where
  -- A request of the controller service is of one phase.
  pub Rises-on_backend :
      (m : Exec Call S A)
      → ((w : World Call S) → (calls : List Call) × ((m w).1.trace ≡ w.trace ++ calls))
      → low ≤ p
      → ((c : Call) → phase (backend c) ≡ some p)
      → Rises phase low p (on_backend m)
  unfolding on_backend
  Rises-on_backend m grows le h = record {
    at = λ w.
        let (calls, e) = grows (record { state = w.state; trace = [] }) in
        (
          map backend calls,
          ap (λ t. w.trace ++ map backend t) e,
          IsRising-lower phase (map backend calls) p low p le (IsRising-map phase calls p h),
        );
  }

module _ {S A : Type 0} (w : World ClusterCall S) where
  on_answer-trace :
      (r : Result ApiError A)
      → (on_answer r (pure {C = ClusterCall} {S = S}) (λ _. fail unknown) w).1 ≡ w
  on_answer-trace (ok a) = refl
  on_answer-trace (err e) = refl

-- A call stands behind those that were made.
pub request-trace :
    {S : Type 0} (k : Cluster S) (c : ApiCall) (w : World ClusterCall S)
    → (request k c w).1.trace ≡ w.trace ▷ api c
unfolding request try_request
request-trace k c w = ap (λ w'. w'.trace) (on_answer-trace _ (k.answer c w.state).0)

-- The cluster answered the call with `a`, in some state.
abbrev pub IsReply : {S : Type 0} → Cluster S → (c : ApiCall) → ApiReply c → Type 0
IsReply {S = S} k c a = (s : S) × ((k.answer c s).0 ≡ ok a)

on_answer-ok :
    {S A : Type 0} (r : Result ApiError A) (w : World ClusterCall S) {a : A}
    → (on_answer r pure (λ _. fail unknown) w).0 ≡ ok a
    → r ≡ ok a
on_answer-ok (ok a) w e = cc
on_answer-ok (err x) w e = cc

pub Yields-request : {S : Type 0} (k : Cluster S) (c : ApiCall) → Yields (IsReply k c) (request k c)
unfolding request try_request
Yields-request k c = record { yield = λ w a e. (w.state, on_answer-ok (k.answer c w.state).0 _ e) }
