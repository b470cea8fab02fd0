-- ===== src/Tags/Gumpf.antt =====
-- `StripTextOfGumpf`: its results are tidy, and a tidy text is its own result.
use hydrus_go.Base.{
  ℕ, Bool, true, false, List, [], ◌∷◌, ◌++◌, ◌≡◌, ◌≢◌, refl, ap, sym, ap₂, ◌∙◌, Bool-cases, inl,
  inr, arith, not, append-nil, append_assoc, All, All-append,
}
use hydrus_go.Base.Strings.{Text, is_space, is_control, trim_space, trim_left, trim_right}
use hydrus_go.Tags.{blank, drop_control, flush, fields_from, join_blank, strip_text_of_gumpf}
use hydrus_go.Tags.Tidy.{tidy_from, tidy}

-- What `strings.Fields` yields when no control character is left.
abbrev IsWordChar : ℕ → Type 0
IsWordChar c = (is_control c ≡ false) × (is_space c ≡ false)

abbrev IsWord : Text → Type 0
IsWord w = (w ≢ []) × All IsWordChar w

abbrev NoControl : Text → Type 0
NoControl = All (λ (c : ℕ). is_control c ≡ false)

drop_control-NoControl : (s : Text) → NoControl (drop_control s)
unfolding drop_control
drop_control-NoControl [] = tt
drop_control-NoControl (c ∷ s) = elim (Bool-cases (is_control c)) [
  | inl h ↦ rw h (drop_control-NoControl s)
  | inr h ↦ rw h (h, drop_control-NoControl s)
]

flush-All : (w : Text) (ws : List Text) → All IsWordChar w → All IsWord ws → All IsWord (flush w ws)
flush-All [] ws h hs = hs
flush-All (c ∷ w) ws h hs = ((cc, h), hs)

fields-IsWord :
    (s word : Text) → NoControl s → All IsWordChar word → All IsWord (fields_from s word)
unfolding fields_from
fields-IsWord [] word _ hw = flush-All word [] hw tt
fields-IsWord (c ∷ s) word (hc, hs) hw = elim (Bool-cases (is_space c)) [
  | inl h ↦ rw (h, fields_from) (flush-All word (fields_from s []) hw (fields-IsWord s [] hs tt))
  | inr h ↦
      rw (h, fields_from)
        (fields-IsWord s (word ++ c ∷ []) hs (All-append IsWordChar word (c ∷ []) hw ((hc, h), tt)))
]

tidy_from-word :
    (gap : Bool) (w rest : Text)
    → All IsWordChar w
    → w ≢ []
    → tidy_from gap (w ++ rest) ≡ tidy_from false rest
unfolding tidy_from
tidy_from-word gap [] rest h ne = absurd (ne refl)
tidy_from-word gap (c ∷ []) rest ((hc, hs), h) ne = rw (hc, hs, tidy_from)
tidy_from-word gap (c ∷ d ∷ w) rest ((hc, hs), h) ne =
    rw (hc, hs, tidy_from) (tidy_from-word false (d ∷ w) rest h cc)

tidy_from-blank : (rest : Text) → tidy_from false (blank ∷ rest) ≡ tidy_from true rest
unfolding tidy_from is_control is_space
tidy_from-blank rest = refl

tidy_from-join :
    (w : Text) (ws : List Text) → All IsWord (w ∷ ws) → tidy_from true (join_blank (w ∷ ws)) ≡ true
unfolding join_blank
tidy_from-join w [] ((ne, hw), _) =
    ap (tidy_from true) (sym (append-nil w))
    ∙ tidy_from-word true w [] hw ne
    ∙ unfold tidy_from in refl
tidy_from-join w (v ∷ ws) ((ne, hw), hs) =
    tidy_from-word true w (blank ∷ join_blank (v ∷ ws)) hw ne
    ∙ tidy_from-blank (join_blank (v ∷ ws))
    ∙ tidy_from-join v ws hs

tidy_of_from : (t : Text) → tidy_from true t ≡ true → tidy t ≡ true
unfolding tidy_from
tidy_of_from [] h = refl
tidy_of_from (c ∷ t) h = h

tidy-join : (ws : List Text) → All IsWord ws → tidy (join_blank ws) ≡ true
tidy-join [] h = unfold join_blank in refl
tidy-join (w ∷ ws) h = tidy_of_from (join_blank (w ∷ ws)) (tidy_from-join w ws h)

-- A text that neither begins nor ends with white space is what `TrimSpace` makes of it.
ends_solid : Text → Bool
ends_solid [] = true
ends_solid (c ∷ []) = not (is_space c)
ends_solid (c ∷ d ∷ s) = ends_solid (d ∷ s)

tidy_from-ends_solid :
    (gap : Bool) (c : ℕ) (s : Text) → tidy_from gap (c ∷ s) ≡ true → ends_solid (c ∷ s) ≡ true
unfolding tidy_from ends_solid
tidy_from-ends_solid gap c [] h = ground arith
tidy_from-ends_solid gap c (d ∷ s) h =
    ground (arith, tidy_from-ends_solid true d s, tidy_from-ends_solid false d s)

drop_control-tidy : (gap : Bool) (s : Text) → tidy_from gap s ≡ true → drop_control s ≡ s
unfolding tidy_from drop_control
drop_control-tidy gap [] h = refl
drop_control-tidy gap (c ∷ s) h =
    ground (arith, drop_control-tidy true s, drop_control-tidy false s)

-- Reading a tidy rest behind a word, and at a gap.
join_flush :
    (c : ℕ) (w : Text) (ws : List Text)
    → ws ≢ []
    → join_blank (flush (c ∷ w) ws) ≡ (c ∷ w) ++ blank ∷ join_blank ws
unfolding join_blank
join_flush c w [] h = absurd (h refl)
join_flush c w (v ∷ ws) h = refl

fields_from-ne-nil : (s : Text) (c : ℕ) (w : Text) → fields_from s (c ∷ w) ≢ []
unfolding fields_from
fields_from-ne-nil [] c w h = cc
fields_from-ne-nil (d ∷ s) c w h = elim (Bool-cases (is_space d)) [
  | inl e ↦ cc (rw (e, fields_from) at h)
  | inr e ↦ fields_from-ne-nil s c (w ++ d ∷ []) (rw (e, fields_from) at h)
]

-- What a tidy text says of its first code point.
tidy_from-space :
    (gap : Bool) (d : ℕ) (s : Text)
    → is_space d ≡ true
    → tidy_from gap (d ∷ s) ≡ true
    → (gap ≡ false) × (d ≡ blank) × (tidy_from true s ≡ true)
unfolding tidy_from
tidy_from-space gap d s e h = ground arith

tidy_from-nil : tidy_from true [] ≡ true → ⊥
unfolding tidy_from
tidy_from-nil h = cc

tidy_from-solid :
    (gap : Bool) (d : ℕ) (s : Text)
    → is_space d ≡ false
    → tidy_from gap (d ∷ s) ≡ true
    → tidy_from false s ≡ true
unfolding tidy_from
tidy_from-solid gap d s e h = ground arith

join_one : (c : ℕ) (w : Text) → join_blank ((c ∷ w) ∷ []) ≡ (c ∷ w) ++ []
unfolding join_blank
join_one c w = sym (append-nil (c ∷ w))

mutual
  unfolding fields_from

  join_in_word :
      (s : Text) (c : ℕ) (w : Text)
      → tidy_from false s ≡ true
      → join_blank (fields_from s (c ∷ w)) ≡ (c ∷ w) ++ s
  join_in_word [] c w h = join_one c w
  join_in_word (d ∷ s) c w h = elim (Bool-cases (is_space d)) [
    | inl e ↦
        let (_, is_blank, rest) = tidy_from-space false d s e h in
        rw (e, fields_from)
          (join_flush c w (fields_from s []) (fields_at_gap-ne s rest)
            ∙ ap₂ (λ (x : ℕ) (t : Text). (c ∷ w) ++ x ∷ t) (sym is_blank) (join_at_gap s rest))
    | inr e ↦
        rw (e, fields_from)
          (join_in_word s c (w ++ d ∷ []) (tidy_from-solid false d s e h)
            ∙ append_assoc (c ∷ w) (d ∷ []) s)
  ]

  join_at_gap : (s : Text) → tidy_from true s ≡ true → join_blank (fields_from s []) ≡ s
  join_at_gap [] h = absurd (tidy_from-nil h)
  join_at_gap (d ∷ s) h = elim (Bool-cases (is_space d)) [
    | inl e ↦ cc ((tidy_from-space true d s e h).0)
    | inr e ↦ rw (e, fields_from) (join_in_word s d [] (tidy_from-solid true d s e h))
  ]

  fields_at_gap-ne : (s : Text) → tidy_from true s ≡ true → fields_from s [] ≢ []
  fields_at_gap-ne [] h = absurd (tidy_from-nil h)
  fields_at_gap-ne (d ∷ s) h = elim (Bool-cases (is_space d)) [
    | inl e ↦ cc ((tidy_from-space true d s e h).0)
    | inr e ↦ rw (e, fields_from) (fields_from-ne-nil s d [])
  ]

trim_right-ends_solid : (s : Text) → ends_solid s ≡ true → trim_right s ≡ s
unfolding ends_solid trim_right
trim_right-ends_solid [] h = refl
trim_right-ends_solid (c ∷ []) h = ground arith
trim_right-ends_solid (c ∷ d ∷ s) h = rw (trim_right-ends_solid (d ∷ s) h)

trim_left-tidy : (c : ℕ) (s : Text) → tidy_from true (c ∷ s) ≡ true → trim_left (c ∷ s) ≡ c ∷ s
unfolding trim_left
trim_left-tidy c s h = elim (Bool-cases (is_space c)) [
  | inl e ↦ cc ((tidy_from-space true c s e h).0)
  | inr e ↦ rw e
]

trim_space-tidy : (s : Text) → tidy s ≡ true → trim_space s ≡ s
unfolding trim_space
trim_space-tidy [] h = refl
trim_space-tidy (c ∷ s) h =
    ap trim_right (trim_left-tidy c s h)
    ∙ trim_right-ends_solid (c ∷ s) (tidy_from-ends_solid true c s h)

-- `StripTextOfGumpf` is the tidy form of the words between white space.
pub strip_words : (t : Text) → strip_text_of_gumpf t ≡ join_blank (fields_from (drop_control t) [])
unfolding strip_text_of_gumpf
strip_words t = trim_space-tidy _ (
    tidy-join (fields_from (drop_control t) [])
      (fields-IsWord (drop_control t) [] (drop_control-NoControl t) tt))

-- Every result of `StripTextOfGumpf` is tidy: no control character, single blanks between words
-- and none at the ends.
pub tidy-strip : (t : Text) → tidy (strip_text_of_gumpf t) ≡ true
tidy-strip t = rw strip_words (
    tidy-join (fields_from (drop_control t) [])
      (fields-IsWord (drop_control t) [] (drop_control-NoControl t) tt))

-- A tidy text is left as it is.
pub strip-tidy : (t : Text) → tidy t ≡ true → strip_text_of_gumpf t ≡ t
strip-tidy [] h = rw strip_words (unfold drop_control fields_from join_blank in refl)
strip-tidy (c ∷ t) h = rw (strip_words, drop_control-tidy true (c ∷ t) h) (join_at_gap (c ∷ t) h)
