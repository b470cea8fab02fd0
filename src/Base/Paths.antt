-- ===== src/Base/Paths.antt =====
-- Go's `path/filepath` on Unix, as far as the program calls it: `Clean`, `Join`, `Base`, `Dir`.
pub mod Last
use Prim.Native.Nat.{ℕ}
use mathlib.Core.Path.{◌≡◌, refl}
use mathlib.Core.Bool.{Bool, true, false, ◌&&◌, ◌||◌, not}
use mathlib.Core.List.{List, [], ◌∷◌, ◌++◌, reverse}
use mathlib.Core.Option.{Option, none, some}
use hydrus_go.Base.Tests.{◌==◌, if◌then◌else◌}
use hydrus_go.Base.Strings.{Text, codes, text_eq, is_empty}

abbrev pub slash : ℕ
slash = b'/'

abbrev dot : Text
dot = b'.' ∷ []

abbrev dot_dot : Text
dot_dot = b'.' ∷ b'.' ∷ []

-- The elements between slashes; the last argument is the element that is being read.
elements_from : Text → Text → List Text
elements_from [] element = element ∷ []
elements_from (c ∷ s) element = elim (c == slash) [
  | true ↦ element ∷ elements_from s []
  | false ↦ elements_from s (element ++ c ∷ [])
]

join_slash : List Text → Text
join_slash [] = []
join_slash (e ∷ []) = e
join_slash (e ∷ f ∷ es) = e ++ slash ∷ join_slash (f ∷ es)

-- One element of the path, on the elements kept so far, the last one first.
keep_element : Bool → Text → List Text → List Text
keep_element rooted element [] =
    if is_empty element || text_eq element dot
    then []
    else if text_eq element dot_dot && rooted
    then []
    else element ∷ []
keep_element rooted element (last ∷ kept) =
    if is_empty element || text_eq element dot
    then last ∷ kept
    else if text_eq element dot_dot
    then if text_eq last dot_dot then element ∷ last ∷ kept else kept
    else element ∷ last ∷ kept

keep_elements : Bool → List Text → List Text → List Text
keep_elements rooted [] kept = kept
keep_elements rooted (e ∷ es) kept = keep_elements rooted es (keep_element rooted e kept)

is_rooted : Text → Bool
is_rooted [] = false
is_rooted (c ∷ s) = c == slash

-- An empty relative path is written as a dot.
dot_if_empty : Text → Text
dot_if_empty [] = dot
dot_if_empty (c ∷ s) = c ∷ s

-- `filepath.Clean`
unfoldable pub clean : Text → Text
unfolding elements_from join_slash keep_element keep_elements is_rooted dot_if_empty text_eq
clean path =
    let cleaned =
      join_slash (reverse (keep_elements (is_rooted path) (elements_from path []) [])) in
    if is_rooted path then slash ∷ cleaned else dot_if_empty cleaned

-- `filepath.Join`: empty elements are left out.
without_empty : List Text → List Text
without_empty [] = []
without_empty ([] ∷ es) = without_empty es
without_empty ((c ∷ e) ∷ es) = (c ∷ e) ∷ without_empty es

join_kept : List Text → Text
unfolding clean join_slash
join_kept [] = []
join_kept (e ∷ es) = clean (join_slash (e ∷ es))

unfoldable pub join : List Text → Text
unfolding without_empty join_kept
join es = join_kept (without_empty es)

clean_dots : clean (codes "/a/./b/../c//d/") ≡ codes "/a/c/d"
unfolding clean
clean_dots = refl

clean_up : clean (codes "../a/../..") ≡ codes "../.."
unfolding clean
clean_up = refl

join_parts : join (codes "/db" ∷ [] ∷ codes "f4/" ∷ codes "x" ∷ []) ≡ codes "/db/f4/x"
unfolding join
join_parts = refl
