-- ===== src/Access/Permissions.antt =====
-- What `Authorize` lets through: the permission check against its meaning.
use hydrus_go.Base.{
  ℕ, true, List, [], ◌∷◌, ◌≡◌, refl, ap, subst, ◌⊎◌, inl, inr, ◌↔◌, Bool-cases, arith,
}
use hydrus_go.Base.Strings.{Casing}
use hydrus_go.Base.Results.{Result, ok, err, ◌>>=◌}
use hydrus_go.Access.{
  Permission, Principal, AccessControl, Request, Refusal, grants, has_any_permission,
  check_permissions, authorize, authenticate,
}

abbrev pub Member : Permission → List Permission → Type 0
Member p [] = ⊥
Member p (q ∷ qs) = (q ≡ p) ⊎ Member p qs

-- Some required permission is among the granted ones.
abbrev pub Shares : List Permission → List Permission → Type 0
Shares granted required = (p : Permission) × Member p granted × Member p required

-- When a principal may pass: nothing is required, it may do everything, or one permission fits.
abbrev pub Allowed : List Permission → Principal → Type 0
Allowed required principal =
    (required ≡ [])
    ⊎ (principal.permits_everything ≡ true)
    ⊎ Shares principal.basic_permissions required

grants_sound :
    (granted : List Permission) (p : Permission) → grants granted p ≡ true → Member p granted
unfolding grants
grants_sound [] p h = cc
grants_sound (q ∷ qs) p h = ground (arith, grants_sound qs p)

grants_complete :
    (granted : List Permission) (p : Permission) → Member p granted → grants granted p ≡ true
unfolding grants
grants_complete [] p h = absurd h
grants_complete (q ∷ qs) p h = ground (arith, grants_complete qs p)

has_any_sound :
    (granted required : List Permission)
    → has_any_permission granted required ≡ true
    → Shares granted required
unfolding has_any_permission
has_any_sound granted [] h = cc
has_any_sound granted (r ∷ rs) h = elim (Bool-cases (grants granted r)) [
  | inl e ↦ (r, grants_sound granted r e, inl refl)
  | inr e ↦ let (p, mine, wanted) = has_any_sound granted rs (rw e at h) in (p, mine, inr wanted)
]

has_any_complete :
    (granted required : List Permission) (p : Permission)
    → Member p granted
    → Member p required
    → has_any_permission granted required ≡ true
unfolding has_any_permission
has_any_complete granted [] p m w = absurd w
has_any_complete granted (r ∷ rs) p m w =
    ground (arith, has_any_complete granted rs p, grants_complete granted p)

-- The check passes a principal unchanged exactly when nothing is required, the principal may do
-- everything, or one of the required permissions is granted to it.
pub check_permissions_iff :
    (required : List Permission) (p : Principal)
    → (check_permissions required p ≡ ok p) ↔ Allowed required p
unfolding check_permissions
check_permissions_iff required p = (sound required, complete required)
  where
    sound : (r : List Permission) → check_permissions r p ≡ ok p → Allowed r p
    sound [] h = inl refl
    sound (r ∷ rs) h = elim (Bool-cases p.permits_everything) [
      | inl e ↦ inr (inl e)
      | inr e ↦ inr (inr (has_any_sound p.basic_permissions (r ∷ rs) (ground arith)))
    ]

    complete : (r : List Permission) → Allowed r p → check_permissions r p ≡ ok p
    complete [] h = refl
    complete (r ∷ rs) (inl h) = cc
    complete (r ∷ rs) (inr (inl h)) = ground arith
    complete (r ∷ rs) (inr (inr (q, mine, wanted))) =
        ground (arith, has_any_complete p.basic_permissions (r ∷ rs) q mine wanted)

check_permissions-same :
    (required : List Permission) (q p : Principal) → check_permissions required q ≡ ok p → q ≡ p
unfolding check_permissions
check_permissions-same [] q p h = cc
check_permissions-same (r ∷ rs) q p h = elim (Bool-cases q.permits_everything) [
  | inl e ↦ cc (rw e at h)
  | inr e ↦ elim (Bool-cases (has_any_permission q.basic_permissions (r ∷ rs))) [
    | inl f ↦ cc (rw (e, f) at h)
    | inr f ↦ cc (rw (e, f) at h)
  ]
]

-- `Authorize` lets a request through as `p` exactly if its credential authenticates as `p` and `p`
-- is allowed what is required.
pub authorize_iff :
    (u : Casing) (now later : ℕ) (r : Request) (required : List Permission) (a : AccessControl)
    (p : Principal)
    → ((authorize u now later r required a).0 ≡ ok p)
      ↔ (((authenticate u now later r a).0 ≡ ok p) × Allowed required p)
unfolding authorize
authorize_iff u now later r required a p = (
  λ h. through (authenticate u now later r a).0 h,
  λ (e, allowed). rw e ((check_permissions_iff required p).1 allowed),
)
  where
    through :
        (w : Result Refusal Principal)
        → (w >>= λ q. check_permissions required q) ≡ ok p
        → (w ≡ ok p) × Allowed required p
    through (err e) h = cc
    through (ok q) h =
        let same = check_permissions-same required q p h in
        (
          ap ok same,
          (check_permissions_iff required p).0
              (subst (λ x. check_permissions required x ≡ ok p) same h),
        )
