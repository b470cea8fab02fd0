-- ===== src/Tags/Letters.antt =====
-- What `StripTextOfGumpf` leaves of a text: its code points, and blanks.
use hydrus_go.Base.{ℕ, List, [], ◌∷◌, ◌++◌, Bool-cases, inl, inr, All, All-append}
use hydrus_go.Base.Strings.{Text, is_space, is_control}
use hydrus_go.Tags.{blank, drop_control, flush, fields_from, join_blank, strip_text_of_gumpf}
use hydrus_go.Tags.Gumpf.{strip_words}

-- `P` holds of every code point that is left, if it holds of those of the text and of the blank.
module _ (P : ℕ → Type 0) (of_blank : P blank) where
  flush-Letters : (w : Text) (ws : List Text) → All P w → All (All P) ws → All (All P) (flush w ws)
  flush-Letters [] ws h hs = hs
  flush-Letters (c ∷ w) ws h hs = (h, hs)

  fields-Letters : (s w : Text) → All P s → All P w → All (All P) (fields_from s w)
  unfolding fields_from
  fields-Letters [] w _ hw = flush-Letters w [] hw tt
  fields-Letters (c ∷ s) w (hc, hs) hw = elim (Bool-cases (is_space c)) [
    | inl e ↦
        rw (e, fields_from) (flush-Letters w (fields_from s []) hw (fields-Letters s [] hs tt))
    | inr e ↦
        rw (e, fields_from)
          (fields-Letters s (w ++ c ∷ []) hs (All-append P w (c ∷ []) hw (hc, tt)))
  ]

  join-Letters : (ws : List Text) → All (All P) ws → All P (join_blank ws)
  unfolding join_blank
  join-Letters [] _ = tt
  join-Letters (w ∷ []) (hw, _) = hw
  join-Letters (w ∷ v ∷ ws) (hw, hs) =
      All-append P w (blank ∷ join_blank (v ∷ ws)) hw (of_blank, join-Letters (v ∷ ws) hs)

  drop_control-Letters : (s : Text) → All P s → All P (drop_control s)
  unfolding drop_control
  drop_control-Letters [] _ = tt
  drop_control-Letters (c ∷ s) (hc, hs) = elim (Bool-cases (is_control c)) [
    | inl e ↦ rw e (drop_control-Letters s hs)
    | inr e ↦ rw e (hc, drop_control-Letters s hs)
  ]

  pub strip-Letters : (t : Text) → All P t → All P (strip_text_of_gumpf t)
  strip-Letters t h = rw strip_words (
      join-Letters (fields_from (drop_control t) [])
        (fields-Letters (drop_control t) [] (drop_control-Letters t h) tt))
