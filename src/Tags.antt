-- ===== src/Tags.antt =====
-- internal/core/tags/tags.go: how a tag is normalised, and how it falls into namespace and subtag.
pub mod Parts
pub mod Tidy
pub mod Gumpf
pub mod Letters
pub mod Cleaning
mod Examples
use hydrus_go.Base.{
  ℕ, Bool, true, false, List, [], ◌∷◌, ◌++◌, not, ◌&&◌, ◌==◌, if◌then◌else◌, take, length, leb,
}
use hydrus_go.Base.Results.{Result, ok, err}
use hydrus_go.Base.Strings.{
  Text, Casing, to_lower, is_space, is_control, is_empty, contains, trim_space,
}

abbrev pub colon : ℕ
colon = b':'

abbrev pub blank : ℕ
blank = 32

pub data TagError : Type 0 where
  empty_tag : TagError

unfoldable pub truncate_runes : Text → ℕ → Text
truncate_runes value limit = if leb (length value) limit then value else take limit value

pub before_colon : Text → Text
before_colon [] = []
before_colon (c ∷ s) = if c == colon then [] else c ∷ before_colon s

pub after_colon : Text → Text
after_colon [] = []
after_colon (c ∷ s) = if c == colon then s else after_colon s

-- `strings.SplitN(tag, ":", 2)` has two parts exactly if there is a colon.
unfoldable pub split : Text → Text × Text
unfolding contains before_colon after_colon
split tag = if contains tag colon then (before_colon tag, after_colon tag) else ([], tag)

unfoldable pub combine : Text → Text → Text
unfolding contains
combine [] subtag = if contains subtag colon then colon ∷ subtag else subtag
combine (c ∷ namespace) subtag = (c ∷ namespace) ++ colon ∷ subtag

-- `strings.Map` with a function that drops the control characters.
pub drop_control : Text → Text
drop_control [] = []
drop_control (c ∷ s) = if is_control c then drop_control s else c ∷ drop_control s

abbrev flush : Text → List Text → List Text
flush [] words = words
flush (c ∷ word) words = (c ∷ word) ∷ words

-- `strings.Fields`; the last argument is the word that is being read.
pub fields_from : Text → Text → List Text
fields_from [] word = flush word []
fields_from (c ∷ s) word = elim (is_space c) [
  | true ↦ flush word (fields_from s [])
  | false ↦ fields_from s (word ++ c ∷ [])
]

-- `strings.Join` with one blank.
pub join_blank : List Text → Text
join_blank [] = []
join_blank (w ∷ []) = w
join_blank (w ∷ v ∷ words) = w ++ blank ∷ join_blank (v ∷ words)

unfoldable pub strip_text_of_gumpf : Text → Text
unfolding drop_control fields_from join_blank
strip_text_of_gumpf value = trim_space (join_blank (fields_from (drop_control value) []))

-- The pattern `^:[^:]+$`.
unfoldable pub leading_single_colon : Text → Bool
leading_single_colon [] = false
leading_single_colon (c ∷ s) = (c == colon) && (not (is_empty s) && not (contains s colon))

abbrev clean_parts : Text × Text → Text
clean_parts (namespace, subtag) =
    combine (strip_text_of_gumpf namespace) (strip_text_of_gumpf subtag)

abbrev mark_colon : Text → Text
mark_colon tag = if leading_single_colon tag then colon ∷ tag else tag

-- `Clean`, after the truncation and the case mapping.
abbrev clean_marked : Text → Text
clean_marked tag =
    if contains tag colon
    then clean_parts (split (strip_text_of_gumpf tag))
    else strip_text_of_gumpf tag

abbrev pub max_tag_runes : ℕ
max_tag_runes = 1024

unfoldable pub clean : Casing → Text → Text
clean u tag = clean_marked (mark_colon (to_lower u (truncate_runes tag max_tag_runes)))

unfoldable pub check_not_empty : Text → Result TagError (Unit {0})
check_not_empty tag =
    let (_, subtag) = split tag in if is_empty subtag then err empty_tag else ok tt
