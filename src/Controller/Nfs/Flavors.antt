-- ===== src/Controller/Nfs/Flavors.antt =====
-- The authentication flavours of an NFS share (pkg/iscsi/controllerserver.go).
use csi_driver_for_windows_s.Prelude.{
  ◌≡◌, refl, sym, inl, inr, arith, ◌≤◌, ltb, ℕ, Bool, true, false, String, ◌==◌, eq_iff, StringMap,
  List, [], ◌∷◌, ◌++◌, All, All-append, Result, ok, err, if◌then◌else◌, Bool-cases, ok_eq,
  >>=-eq-ok, ==-comm_false,
}
use csi_driver_for_windows_s.Strconv.{one_of}
use csi_driver_for_windows_s.Backend.{NfsShareOptions}
use csi_driver_for_windows_s.Backend.Exec.{Code}
use csi_driver_for_windows_s.Controller.Params.{split_csv_param}
use csi_driver_for_windows_s.Controller.Nfs.{
  word, normalize_nfs_authentication_flavor, collect_flavors, normalize_nfs_authentication,
  kerberos_flavor, nfs_kerberos_authentication, rank, prefer, preferred_nfs_mount_authentication,
  with_kerberos, nfs_authentications, nfs_options_from_params,
}

-- The four flavours, as the backend and the node expect them.
pub is_flavor : String → Bool
is_flavor value = one_of ("sys" ∷ "krb5" ∷ "krb5i" ∷ "krb5p" ∷ []) value

-- No value stands twice.
pub AreDistinct : List String → Type 0
AreDistinct [] = Unit
AreDistinct (value ∷ rest) = (one_of rest value ≡ false) × AreDistinct rest

abbrev AreFlavors : List String → Type 0
AreFlavors values = All (λ value. is_flavor value ≡ true) values

is_flavor-ok :
    (a : String) {b : String}
    → is_flavor a ≡ true
    → Path (Result Code String) (ok a) (ok b)
    → is_flavor b ≡ true
is_flavor-ok a h e = cc

is_flavor-chosen :
    (t1 t2 t3 t4 : Bool) (e : Code) {b : String}
    → (if t1
        then ok "sys"
        else if t2
        then ok "krb5"
        else if t3
        then ok "krb5i"
        else if t4
        then ok "krb5p"
        else err e)
      ≡ ok b
    → is_flavor b ≡ true
unfolding is_flavor
is_flavor-chosen true t2 t3 t4 e h = is_flavor-ok "sys" refl h
is_flavor-chosen false true t3 t4 e h = is_flavor-ok "krb5" refl h
is_flavor-chosen false false true t4 e h = is_flavor-ok "krb5i" refl h
is_flavor-chosen false false false true e h = is_flavor-ok "krb5p" refl h
is_flavor-chosen false false false false e h = cc

is_flavor-normalize :
    (value : String) {flavor : String}
    → normalize_nfs_authentication_flavor value ≡ ok flavor
    → is_flavor flavor ≡ true
unfolding normalize_nfs_authentication_flavor
is_flavor-normalize value h =
    is_flavor-chosen (word value == "sys") (one_of ("krb5" ∷ "kerberos" ∷ []) (word value))
      (one_of ("krb5i" ∷ "kerberos-integrity" ∷ []) (word value))
      (one_of ("krb5p" ∷ "kerberos-privacy" ∷ []) (word value)) _ h

one_of-snoc :
    (values : List String) (a b : String)
    → one_of values b ≡ false
    → (a == b) ≡ false
    → one_of (values ++ a ∷ []) b ≡ false
one_of-snoc [] a b h k = ground arith
one_of-snoc (v ∷ values) a b h k = grind (arith, one_of-snoc values a b)

AreDistinct-snoc :
    (values : List String) (value : String)
    → one_of values value ≡ false
    → AreDistinct values
    → AreDistinct (values ++ value ∷ [])
unfolding AreDistinct
AreDistinct-snoc [] value h d = (refl, tt)
AreDistinct-snoc (v ∷ values) value h (e, d) = (
  one_of-snoc values value v e (==-comm_false v value (ground arith)),
  AreDistinct-snoc values value (ground arith) d,
)

-- What the loop has collected.
record AreClean (values : List String) : Type 0 where
  distinct : AreDistinct values
  flavors : AreFlavors values

AreClean-with :
    (auth : List String) (flavor : String)
    → AreClean auth
    → is_flavor flavor ≡ true
    → (t : Bool) → one_of auth flavor ≡ t
    → AreClean (if t then auth else auth ++ flavor ∷ [])
AreClean-with auth flavor c h true e = c
AreClean-with auth flavor c h false e = record {
  distinct = AreDistinct-snoc auth flavor e c.distinct;
  flavors = All-append (λ value. is_flavor value ≡ true) auth (flavor ∷ []) c.flavors (h, tt);
}

collect_flavors-AreClean :
    (auth raws : List String) {out : List String}
    → AreClean auth
    → collect_flavors auth raws ≡ ok out
    → AreClean out
unfolding collect_flavors
collect_flavors-AreClean auth [] c h = rw (sym (ok_eq h)) c
collect_flavors-AreClean auth (raw ∷ raws) c h =
    let (flavor, e, k) =
      >>=-eq-ok (normalize_nfs_authentication_flavor raw)
        (λ flavor. collect_flavors (if one_of auth flavor then auth else auth ++ flavor ∷ []) raws)
        h in
    collect_flavors-AreClean (if one_of auth flavor then auth else auth ++ flavor ∷ []) raws
      (AreClean-with auth flavor c (is_flavor-normalize raw e) (one_of auth flavor) refl) k

-- The list that `normalizeNfsAuthentication` accepts holds only flavours, and none of them twice.
pub normalize_nfs_authentication-AreFlavors :
    (value : String) (auth : List String)
    → normalize_nfs_authentication value ≡ ok auth
    → AreDistinct auth × All (λ flavor. is_flavor flavor ≡ true) auth
unfolding normalize_nfs_authentication AreDistinct
normalize_nfs_authentication-AreFlavors value auth h =
    let clean =
      collect_flavors-AreClean [] (split_csv_param value) (record { distinct = tt; flavors = tt })
        h in
    (clean.distinct, clean.flavors)

≤-refl : (a : ℕ) → a ≤ a
≤-refl a = omega arith

≤-trans : {a b c : ℕ} → a ≤ b → b ≤ c → a ≤ c
≤-trans h k = omega arith

ltb-≤ : (a b : ℕ) → ltb a b ≡ true → a ≤ b
ltb-≤ a b h = ground arith

ltb-≥ : (a b : ℕ) → ltb a b ≡ false → b ≤ a
ltb-≥ a b h = ground arith

one_of-chosen :
    (best value out : String) (auth : List String) (t : Bool)
    → one_of ((if t then value else best) ∷ auth) out ≡ true
    → one_of (best ∷ (value ∷ auth)) out ≡ true
one_of-chosen best value out auth true h = ground arith
one_of-chosen best value out auth false h = ground arith

rank-better :
    (best value : String)
    → let better = if ltb (rank best) (rank value) then value else best in
      (rank best ≤ rank better) × (rank value ≤ rank better)
rank-better best value = elim (Bool-cases (ltb (rank best) (rank value))) [
  | inl h ↦ rw h (ltb-≤ (rank best) (rank value) h, ≤-refl (rank value))
  | inr h ↦ rw h (≤-refl (rank best), ltb-≥ (rank best) (rank value) h)
]

rank-prefer :
    (best : String) (auth : List String)
    → (rank best ≤ rank (prefer best auth))
      × All (λ value. rank value ≤ rank (prefer best auth)) auth
unfolding prefer
rank-prefer best [] = (≤-refl (rank best), tt)
rank-prefer best (value ∷ auth) =
    let better = if ltb (rank best) (rank value) then value else best in
    let (p, q) = rank-better best value in
    let (r, later) = rank-prefer better auth in (≤-trans p r, (≤-trans q r, later))

one_of-head : (best : String) → one_of (best ∷ []) best ≡ true
one_of-head best = grind (arith, eq_iff)

one_of-prefer :
    (best : String) (auth : List String) → one_of (best ∷ auth) (prefer best auth) ≡ true
unfolding prefer
one_of-prefer best [] = one_of-head best
one_of-prefer best (value ∷ auth) =
    one_of-chosen best value (prefer (if ltb (rank best) (rank value) then value else best) auth)
      auth (ltb (rank best) (rank value))
      (one_of-prefer (if ltb (rank best) (rank value) then value else best) auth)

-- The preferred mount flavour of a list is one of its values, or empty, and none of them is stronger.
pub preferred_nfs_mount_authentication-rank :
    (auth : List String)
    → (one_of ("" ∷ auth) (preferred_nfs_mount_authentication auth) ≡ true)
      × All (λ flavor. rank flavor ≤ rank (preferred_nfs_mount_authentication auth)) auth
unfolding preferred_nfs_mount_authentication
preferred_nfs_mount_authentication-rank auth = (one_of-prefer "" auth, (rank-prefer "" auth).1)

kerberos_flavor-mount :
    (value : String) {mount : String}
    → Path (Result Code (List String × String)) (kerberos_flavor value) (ok ([], mount))
    → ⊥
unfolding kerberos_flavor
kerberos_flavor-mount value h = ground arith

nfs_kerberos-mount :
    (value : String) {mount : String}
    → Path (Result Code (List String × String)) (nfs_kerberos_authentication value) (ok ([], mount))
    → mount ≡ ""
unfolding nfs_kerberos_authentication
nfs_kerberos-mount value h = grind (arith, kerberos_flavor-mount)

with_kerberos-mount :
    (kerberos : String) (listed : List String) (requested : String) {mount : String}
    → Path
        (Result Code (List String × String))
        (with_kerberos kerberos listed requested)
        (ok ([], mount))
    → mount ≡ ""
unfolding with_kerberos
with_kerberos-mount kerberos [] requested h = nfs_kerberos-mount kerberos h
with_kerberos-mount kerberos (flavor ∷ rest) requested h = cc

nfs_authentications-mount :
    (params : StringMap) {mount : String}
    → Path (Result Code (List String × String)) (nfs_authentications params) (ok ([], mount))
    → mount ≡ ""
unfolding nfs_authentications
nfs_authentications-mount params h = grind (arith, with_kerberos-mount)

mount-nfs_authentications :
    (params : StringMap) (read : List String × String)
    → nfs_authentications params ≡ ok read
    → read.0 ≡ []
    → read.1 ≡ ""
mount-nfs_authentications params ([], mount) h e = nfs_authentications-mount params h
mount-nfs_authentications params ((flavor ∷ rest), mount) h e = cc

preferred-none : (auth : List String) → auth ≡ [] → preferred_nfs_mount_authentication auth ≡ ""
unfolding preferred_nfs_mount_authentication prefer
preferred-none [] e = refl
preferred-none (flavor ∷ rest) e = cc

-- A share without a list of flavours has no mount flavour, even if `nfsMountAuthentication` asks for
-- one.
pub nfs_options_from_params-mount :
    (params : StringMap) (o : NfsShareOptions)
    → nfs_options_from_params params ≡ ok o
    → o.authentication ≡ []
    → o.mount_authentication ≡ ""
unfolding nfs_options_from_params
nfs_options_from_params-mount params o h e =
    grind (arith, mount-nfs_authentications params, preferred-none)
