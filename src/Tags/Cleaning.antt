-- ===== src/Tags/Cleaning.antt =====
-- `Clean` gives a normal form.
use hydrus_go.Base.{
  ℕ, ◌≤◌, true, false, [], ◌∷◌, ◌++◌, ◌≡◌, refl, ap, ap₂, ◌∙◌, Bool-cases, inl, inr, arith, ◌==◌,
  All, All-append, length, leb,
}
use hydrus_go.Base.Strings.{Text, Casing, to_lower, contains}
use hydrus_go.Tags.{
  colon, blank, truncate_runes, before_colon, after_colon, split, combine, strip_text_of_gumpf,
  leading_single_colon, clean_parts, mark_colon, clean_marked, max_tag_runes, clean,
}
use hydrus_go.Tags.Parts.{split-append, before_lacks}
use hydrus_go.Tags.Tidy.{tidy, tidy-colon}
use hydrus_go.Tags.Gumpf.{tidy-strip, strip-tidy}
use hydrus_go.Tags.Letters.{strip-Letters}

abbrev NotColon : ℕ → Type 0
NotColon c = (c == colon) ≡ false

lacks-All : (t : Text) → contains t colon ≡ false → All NotColon t
unfolding contains
lacks-All [] h = tt
lacks-All (c ∷ t) h = (ground arith, lacks-All t (ground arith))

All-lacks : (t : Text) → All NotColon t → contains t colon ≡ false
unfolding contains
All-lacks [] h = refl
All-lacks (c ∷ t) (hc, h) = ground (arith, All-lacks t h)

strip-lacks : (t : Text) → contains t colon ≡ false → contains (strip_text_of_gumpf t) colon ≡ false
strip-lacks t h = All-lacks _ (strip-Letters NotColon refl t (lacks-All t h))

leading-lacks :
    (c : ℕ) (t s : Text) → contains (c ∷ t) colon ≡ false → leading_single_colon (c ∷ s) ≡ false
unfolding contains leading_single_colon
leading-lacks c t s h = ground arith

-- A tag that `Clean` leaves alone, before the truncation and the case mapping.
record IsFixed (t : Text) : Type 0 where
  unmarked : leading_single_colon t ≡ false
  kept : clean_marked t ≡ t

plain-IsFixed : (t : Text) → tidy t ≡ true → contains t colon ≡ false → IsFixed t
plain-IsFixed [] h l = record {
  unmarked = unfold leading_single_colon in refl;
  kept = rw l (strip-tidy [] h);
}
plain-IsFixed (c ∷ t) h l = record {
  unmarked = leading-lacks c t t l;
  kept = rw l (strip-tidy (c ∷ t) h);
}

contains-colon : (n s : Text) → contains (n ++ colon ∷ s) colon ≡ true
unfolding contains
contains-colon [] s = refl
contains-colon (c ∷ n) s = ground (arith, contains-colon n s)

parts_kept :
    (n s : Text)
    → tidy n ≡ true
    → tidy s ≡ true
    → contains n colon ≡ false
    → clean_marked (n ++ colon ∷ s) ≡ combine n s
parts_kept n s hn hs l = rw (contains-colon n s) (
    ap (λ (t : Text). clean_parts (split t)) (strip-tidy _ (tidy-colon n s hn hs))
    ∙ ap clean_parts (split-append n s l)
    ∙ ap₂ combine (strip-tidy n hn) (strip-tidy s hs))

combine-IsFixed :
    (n s : Text) → tidy n ≡ true → tidy s ≡ true → contains n colon ≡ false → IsFixed (combine n s)
combine-IsFixed [] s hn hs l = elim (Bool-cases (contains s colon)) [
  | inr lacks ↦ unfold combine in rw lacks (plain-IsFixed s hs lacks)
  | inl has ↦
      unfold combine in
      rw has (record {
        unmarked = unfold leading_single_colon in ground arith;
        kept = parts_kept [] s hn hs l ∙ unfold combine in rw has;
      })
]
combine-IsFixed (c ∷ n) s hn hs l =
    unfold combine in
    record { unmarked = leading-lacks c n (n ++ colon ∷ s) l; kept = parts_kept (c ∷ n) s hn hs l }

namespace_lacks : (t : Text) → contains (split t).0 colon ≡ false
unfolding split
namespace_lacks t = elim (Bool-cases (contains t colon)) [
  | inl has ↦ rw has (before_lacks t)
  | inr lacks ↦ rw lacks (unfold contains in refl)
]

clean_marked-IsFixed : (t : Text) → IsFixed (clean_marked t)
clean_marked-IsFixed t = elim (Bool-cases (contains t colon)) [
  | inr lacks ↦ rw lacks (plain-IsFixed _ (tidy-strip t) (strip-lacks t lacks))
  | inl has ↦ rw has (
      combine-IsFixed (strip_text_of_gumpf (split (strip_text_of_gumpf t)).0)
        (strip_text_of_gumpf (split (strip_text_of_gumpf t)).1) (tidy-strip _) (tidy-strip _)
        (strip-lacks _ (namespace_lacks (strip_text_of_gumpf t))))
]

-- Case mapping: every code point of the result is its own lower case.
module _ (u : Casing) where
  abbrev IsLower : ℕ → Type 0
  IsLower c = u.lower c ≡ c

  to_lower-IsLower : (t : Text) → All IsLower (to_lower u t)
  to_lower-IsLower [] = tt
  to_lower-IsLower (c ∷ t) = (u.lower_idem c, to_lower-IsLower t)

  to_lower_fixed : (t : Text) → All IsLower t → to_lower u t ≡ t
  to_lower_fixed [] h = refl
  to_lower_fixed (c ∷ t) (hc, h) = ap₂ (λ (d : ℕ) (s : Text). d ∷ s) hc (to_lower_fixed t h)

  colon-IsLower : IsLower colon
  colon-IsLower = u.lower_ascii colon (omega arith)

  blank-IsLower : IsLower blank
  blank-IsLower = u.lower_ascii blank (omega arith)

  before-IsLower : (t : Text) → All IsLower t → All IsLower (before_colon t)
  unfolding before_colon
  before-IsLower [] h = tt
  before-IsLower (c ∷ t) (hc, h) = elim (Bool-cases (c == colon)) [
    | inl e ↦ rw e tt
    | inr e ↦ rw e (hc, before-IsLower t h)
  ]

  after-IsLower : (t : Text) → All IsLower t → All IsLower (after_colon t)
  unfolding after_colon
  after-IsLower [] h = tt
  after-IsLower (c ∷ t) (hc, h) = elim (Bool-cases (c == colon)) [
    | inl e ↦ rw e h
    | inr e ↦ rw e (after-IsLower t h)
  ]

  split-IsLower : (t : Text) → All IsLower t → All IsLower (split t).0 × All IsLower (split t).1
  unfolding split
  split-IsLower t h = elim (Bool-cases (contains t colon)) [
    | inl has ↦ rw has (before-IsLower t h, after-IsLower t h)
    | inr lacks ↦ rw lacks (tt, h)
  ]

  combine-IsLower : (n s : Text) → All IsLower n → All IsLower s → All IsLower (combine n s)
  unfolding combine
  combine-IsLower [] s hn hs = elim (Bool-cases (contains s colon)) [
    | inl has ↦ rw has (colon-IsLower, hs)
    | inr lacks ↦ rw lacks hs
  ]
  combine-IsLower (c ∷ n) s hn hs = All-append IsLower (c ∷ n) (colon ∷ s) hn (colon-IsLower, hs)

  clean_marked-IsLower : (t : Text) → All IsLower t → All IsLower (clean_marked t)
  clean_marked-IsLower t h = elim (Bool-cases (contains t colon)) [
    | inr lacks ↦ rw lacks (strip-Letters IsLower blank-IsLower t h)
    | inl has ↦ rw has (
        let stripped = strip-Letters IsLower blank-IsLower t h in
        let (hn, hs) = split-IsLower (strip_text_of_gumpf t) stripped in
        combine-IsLower _ _ (strip-Letters IsLower blank-IsLower _ hn)
          (strip-Letters IsLower blank-IsLower _ hs))
  ]

  mark-IsLower : (t : Text) → All IsLower t → All IsLower (mark_colon t)
  mark-IsLower t h = elim (Bool-cases (leading_single_colon t)) [
    | inl e ↦ rw e (colon-IsLower, h)
    | inr e ↦ rw e h
  ]

  clean_fixed : (t : Text) → IsFixed t → All IsLower t → length t ≤ max_tag_runes → clean u t ≡ t
  unfolding clean truncate_runes
  clean_fixed t fixed lower short =
      let fits : leb (length t) max_tag_runes ≡ true = ground arith in
      rw (fits, to_lower_fixed t lower, fixed.unmarked) fixed.kept

  -- `Clean` is idempotent: cleaning a cleaned tag changes nothing, as long as the cleaned tag keeps
  -- within the limit of 1024 code points.
  pub clean_idem : (t : Text) → length (clean u t) ≤ max_tag_runes → clean u (clean u t) ≡ clean u t
  unfolding clean
  clean_idem t short =
      let lowered = to_lower u (truncate_runes t max_tag_runes) in
      clean_fixed (clean_marked (mark_colon lowered)) (clean_marked-IsFixed (mark_colon lowered))
        (clean_marked-IsLower (mark_colon lowered)
          (mark-IsLower lowered (to_lower-IsLower (truncate_runes t max_tag_runes))))
        short
