-- ===== src/Base/Paths/Last.antt =====
-- The last element of a cleaned path: `Clean` and `Join` keep a plain file name at the end.
use Prim.Native.Nat.{ℕ}
use mathlib.Core.Path.{◌≡◌, refl, sym, ap, ◌∙◌, subst}
use mathlib.Core.Logic.{inl, inr}
use mathlib.Core.Bool.{Bool, false}
use mathlib.Core.List.{List, [], ◌∷◌, ◌++◌, reverse, append_assoc, append-nil, reverse-append}
use hydrus_go.Base.Tests.{◌==◌, Bool-cases, if_elim}
use hydrus_go.Base.Lists.{All}
use hydrus_go.Base.Strings.{Text, text_eq}
use hydrus_go.Base.Paths.{
  slash, elements_from, join_slash, keep_element, keep_elements, is_rooted, dot_if_empty, clean,
  without_empty, join_kept, join,
}

-- A file name: not empty, no slash, and no dot in front.
abbrev pub IsName : Text → Type 0
IsName [] = ⊥
IsName (c ∷ s) = ((c == b'.') ≡ false) × All (λ (d : ℕ). (d == slash) ≡ false) (c ∷ s)

last_of : List Text → Text
last_of [] = []
last_of (e ∷ []) = e
last_of (e ∷ f ∷ es) = last_of (f ∷ es)

pub last_element : Text → Text
last_element path = last_of (elements_from path [])

last_of-append : (es : List Text) (e : Text) → last_of (es ++ e ∷ []) ≡ e
unfolding last_of
last_of-append [] e = refl
last_of-append (f ∷ []) e = refl
last_of-append (f ∷ g ∷ es) e = last_of-append (g ∷ es) e

elements-name :
    (name cur : Text)
    → All (λ (d : ℕ). (d == slash) ≡ false) name
    → elements_from name cur ≡ (cur ++ name) ∷ []
unfolding elements_from
elements-name [] cur h = ap (λ t. t ∷ []) (sym (append-nil cur))
elements-name (c ∷ name) cur (hc, h) =
    rw (hc, elements_from)
      (elements-name name (cur ++ c ∷ []) h ∙ ap (λ t. t ∷ []) (append_assoc cur (c ∷ []) name))

elements-append :
    (s name cur : Text)
    → All (λ (d : ℕ). (d == slash) ≡ false) name
    → elements_from (s ++ slash ∷ name) cur ≡ elements_from s cur ++ name ∷ []
unfolding elements_from
elements-append [] name cur h = ap (λ t. cur ∷ t) (elements-name name [] h)
elements-append (c ∷ s) name cur h = elim (Bool-cases (c == slash)) [
  | inl e ↦ rw (e, elements_from) (ap (λ t. cur ∷ t) (elements-append s name [] h))
  | inr e ↦ rw (e, elements_from) (elements-append s name (cur ++ c ∷ []) h)
]

last_element-append :
    (s name : Text)
    → All (λ (d : ℕ). (d == slash) ≡ false) name
    → last_element (s ++ slash ∷ name) ≡ name
unfolding last_element
last_element-append s name h =
    ap last_of (elements-append s name [] h) ∙ last_of-append (elements_from s []) name

last_element-name :
    (name : Text) → All (λ (d : ℕ). (d == slash) ≡ false) name → last_element name ≡ name
unfolding last_element last_of
last_element-name name h = ap last_of (elements-name name [] h)

-- A text of elements whose last one is a name.
data EndsIn (name : Text) (t : Text) : Type 0 where
  alone : t ≡ name → EndsIn name t
  under : (s : Text) → t ≡ s ++ slash ∷ name → EndsIn name t

join-EndsIn : (es : List Text) (name : Text) → EndsIn name (join_slash (es ++ name ∷ []))
unfolding join_slash
join-EndsIn [] name = alone refl
join-EndsIn (e ∷ []) name = under e refl
join-EndsIn (e ∷ f ∷ es) name = deeper (join-EndsIn (f ∷ es) name)
  where
    deeper :
        EndsIn name (join_slash ((f ∷ es) ++ name ∷ []))
        → EndsIn name (e ++ slash ∷ join_slash ((f ∷ es) ++ name ∷ []))
    deeper (alone q) = under e (ap (λ t. e ++ slash ∷ t) q)
    deeper (under s q) =
        under (e ++ slash ∷ s)
          (ap (λ t. e ++ slash ∷ t) q ∙ sym (append_assoc e (slash ∷ s) (slash ∷ name)))

keep_elements-append :
    (rooted : Bool) (es fs kept : List Text)
    → keep_elements rooted (es ++ fs) kept ≡ keep_elements rooted fs (keep_elements rooted es kept)
unfolding keep_elements
keep_elements-append rooted [] fs kept = refl
keep_elements-append rooted (e ∷ es) fs kept =
    keep_elements-append rooted es fs (keep_element rooted e kept)

keep_element-name :
    (rooted : Bool) (name : Text) (kept : List Text)
    → IsName name
    → keep_element rooted name kept ≡ name ∷ kept
unfolding keep_element text_eq
keep_element-name rooted [] kept h = absurd h
keep_element-name rooted (c ∷ name) [] (hc, h) = rw hc
keep_element-name rooted (c ∷ name) (e ∷ kept) (hc, h) = rw hc

name-NoSlash : (name : Text) → IsName name → All (λ (d : ℕ). (d == slash) ≡ false) name
name-NoSlash [] h = absurd h
name-NoSlash (c ∷ name) (hc, h) = h

-- The elements that `Clean` keeps of such a text end with the name.
kept-EndsIn :
    (rooted : Bool) (name t : Text)
    → IsName name
    → EndsIn name t
    → (kept : List Text) × (keep_elements rooted (elements_from t []) [] ≡ name ∷ kept)
unfolding keep_elements
kept-EndsIn rooted name t h (alone q) = (
  [],
  ap (λ s. keep_elements rooted (elements_from s []) []) q
      ∙ ap (λ es. keep_elements rooted es []) (elements-name name [] (name-NoSlash name h))
      ∙ keep_element-name rooted name [] h,
)
kept-EndsIn rooted name t h (under s q) = (
  keep_elements rooted (elements_from s []) [],
  ap (λ r. keep_elements rooted (elements_from r []) []) q
      ∙ ap (λ es. keep_elements rooted es []) (elements-append s name [] (name-NoSlash name h))
      ∙ keep_elements-append rooted (elements_from s []) (name ∷ []) []
      ∙ keep_element-name rooted name (keep_elements rooted (elements_from s []) []) h,
)

last-EndsIn : (name t : Text) → IsName name → EndsIn name t → last_element t ≡ name
last-EndsIn name t h (alone q) = ap last_element q ∙ last_element-name name (name-NoSlash name h)
last-EndsIn name t h (under s q) =
    ap last_element q ∙ last_element-append s name (name-NoSlash name h)

rooted-EndsIn : (name t : Text) → EndsIn name t → EndsIn name (slash ∷ t)
rooted-EndsIn name t (alone q) = under [] (ap (λ s. slash ∷ s) q)
rooted-EndsIn name t (under s q) = under (slash ∷ s) (ap (λ r. slash ∷ r) q)

relative-EndsIn : (name t : Text) → IsName name → EndsIn name t → EndsIn name (dot_if_empty t)
unfolding dot_if_empty
relative-EndsIn [] t h k = absurd h
relative-EndsIn (c ∷ name) [] h (alone q) = cc
relative-EndsIn (c ∷ name) [] h (under [] q) = cc
relative-EndsIn (c ∷ name) [] h (under (d ∷ s) q) = cc
relative-EndsIn (c ∷ name) (d ∷ t) h k = k

clean-EndsIn : (name t : Text) → IsName name → EndsIn name t → EndsIn name (clean t)
unfolding clean
clean-EndsIn name t h k =
    let (kept, e) = kept-EndsIn (is_rooted t) name t h k in
    let cleaned : EndsIn name
        (join_slash (reverse (keep_elements (is_rooted t) (elements_from t []) []))) =
      subst (λ es. EndsIn name (join_slash (reverse es))) (sym e)
        (subst (λ es. EndsIn name (join_slash es)) (sym (reverse-append (name ∷ []) kept))
          (join-EndsIn (reverse kept) name)) in
    if_elim (EndsIn name) (is_rooted t) _ _ (λ _. rooted-EndsIn name _ cleaned)
      (λ _. relative-EndsIn name _ h cleaned)

without_empty-append :
    (es : List Text) (c : ℕ) (name : Text)
    → without_empty (es ++ (c ∷ name) ∷ []) ≡ without_empty es ++ (c ∷ name) ∷ []
unfolding without_empty
without_empty-append [] c name = refl
without_empty-append ([] ∷ es) c name = without_empty-append es c name
without_empty-append ((d ∷ e) ∷ es) c name =
    ap (λ fs. (d ∷ e) ∷ fs) (without_empty-append es c name)

join_kept-append :
    (es : List Text) (name : Text)
    → join_kept (es ++ name ∷ []) ≡ clean (join_slash (es ++ name ∷ []))
unfolding join_kept
join_kept-append [] name = refl
join_kept-append (e ∷ es) name = refl

-- `Join` with a file name in the last place yields a path whose last element is that name.
pub last_element-join :
    (es : List Text) (name : Text) → IsName name → last_element (join (es ++ name ∷ [])) ≡ name
unfolding join
last_element-join es [] h = absurd h
last_element-join es (c ∷ name) h = last-EndsIn (c ∷ name) _ h (
    subst (EndsIn (c ∷ name))
      (sym (
        ap join_kept (without_empty-append es c name)
        ∙ join_kept-append (without_empty es) (c ∷ name)))
      (clean-EndsIn (c ∷ name) _ h (join-EndsIn (without_empty es) (c ∷ name))))
