-- ===== src/Tags/Examples.antt =====
-- `Clean`, `Split` and `Combine` on concrete tags.
use hydrus_go.Base.{◌≤◌, true, ◌≡◌, refl, length, arith}
use hydrus_go.Base.Strings.{codes, ascii_casing, contains, trim_space, is_control}
use hydrus_go.Tags.{
  split, combine, clean, strip_text_of_gumpf, max_tag_runes, truncate_runes, leading_single_colon,
}
use hydrus_go.Tags.Parts.{split-combine}
use hydrus_go.Tags.Tidy.{tidy}
use hydrus_go.Tags.Gumpf.{tidy-strip}
use hydrus_go.Tags.Cleaning.{clean_idem}

clean_messy : clean ascii_casing (codes "  Creator :  Some   One ") ≡ codes "creator:some one"
unfolding clean truncate_runes leading_single_colon contains strip_text_of_gumpf trim_space split
    combine is_control
clean_messy = refl

-- A tag that begins with its only colon keeps it.
clean_smiley : clean ascii_casing (codes ":)") ≡ codes "::)"
unfolding clean truncate_runes leading_single_colon contains strip_text_of_gumpf trim_space split
    combine is_control
clean_smiley = refl

split-combine_example :
    split (combine (codes "creator") (codes "a:b")) ≡ (codes "creator", codes "a:b")
unfolding contains
split-combine_example = split-combine (codes "creator") (codes "a:b") refl

tidy-strip_example : tidy (strip_text_of_gumpf (codes " a  b ")) ≡ true
tidy-strip_example = tidy-strip (codes " a  b ")

messy_short : length (clean ascii_casing (codes " A : B ")) ≤ max_tag_runes
unfolding clean truncate_runes leading_single_colon contains strip_text_of_gumpf trim_space split
    combine is_control
messy_short = omega arith

clean_idem_example :
    clean ascii_casing (clean ascii_casing (codes " A : B ")) ≡ clean ascii_casing (codes " A : B ")
clean_idem_example = clean_idem ascii_casing (codes " A : B ") messy_short
