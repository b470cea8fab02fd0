-- ===== src/Tags/Tidy.antt =====
-- The texts that `StripTextOfGumpf` yields, as a test, and what may be joined to them.
use hydrus_go.Base.{Bool, true, false, [], ◌∷◌, ◌++◌, ◌≡◌, refl, arith, not, ◌&&◌, ◌==◌}
use hydrus_go.Base.Strings.{Text, is_space, is_control}
use hydrus_go.Tags.{blank, colon}

-- No control character, single blanks between words, none at the ends; `gap` tells whether a blank
-- or the start stands before the text.
unfoldable pub tidy_from : Bool → Text → Bool
tidy_from gap [] = not gap
tidy_from gap (c ∷ s) = elim (is_control c) [
  | true ↦ false
  | false ↦ elim (is_space c) [
    | true ↦ not gap && ((c == blank) && tidy_from true s)
    | false ↦ tidy_from false s
  ]
]

abbrev pub tidy : Text → Bool
tidy [] = true
tidy (c ∷ s) = tidy_from true (c ∷ s)

-- Two tidy texts with a solid code point between them are tidy together.
tidy_from-append :
    (gap : Bool) (w rest : Text)
    → tidy_from gap w ≡ true
    → tidy_from false rest ≡ true
    → tidy_from gap (w ++ rest) ≡ true
unfolding tidy_from
tidy_from-append true [] rest h k = cc
tidy_from-append false [] rest h k = k
tidy_from-append gap (c ∷ w) rest h k =
    ground (arith, tidy_from-append true w rest, tidy_from-append false w rest)

tidy_weaken : (s : Text) → tidy s ≡ true → tidy_from false s ≡ true
unfolding tidy_from
tidy_weaken [] h = refl
tidy_weaken (c ∷ s) h = ground arith

tidy_from-colon : (gap : Bool) (s : Text) → tidy s ≡ true → tidy_from gap (colon ∷ s) ≡ true
unfolding tidy_from is_control is_space
tidy_from-colon gap s h = tidy_weaken s h

pub tidy-colon : (n s : Text) → tidy n ≡ true → tidy s ≡ true → tidy (n ++ colon ∷ s) ≡ true
tidy-colon [] s hn hs = tidy_from-colon true s hs
tidy-colon (c ∷ n) s hn hs =
    tidy_from-append true (c ∷ n) (colon ∷ s) hn (tidy_from-colon false s hs)
