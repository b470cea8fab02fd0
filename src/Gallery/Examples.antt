-- ===== src/Gallery/Examples.antt =====
-- A gallery of three files.
use hydrus_go.Base.{ℕ, false, none, List, [], ◌∷◌, refl}
use hydrus_go.Base.Int.{pos}
use hydrus_go.Gallery.{Item, has_file, new_search_pane, apply_recent_page}
use hydrus_go.Gallery.Scrolled.{IsDistinct, Shows, scroll, page_of, scroll-apply_recent_page}

abbrev item : ℕ → Item
item id = record {
  file_id = pos id;
  hash = [];
  mime = [];
  width = none;
  height = none;
  imported_at_ms = none;
  has_thumbnail = false;
  content_url = [];
  thumbnail_url = [];
  metadata_url = [];
}

abbrev files : List Item
files = item 9 ∷ item 4 ∷ item 7 ∷ []

files-IsDistinct : IsDistinct files
unfolding IsDistinct has_file
files-IsDistinct = (refl, (refl, (refl, tt)))

scroll-apply_recent_page_example : Shows files 4 (
    scroll files
      (pos 0)
      (1 ∷ 2 ∷ [])
      (apply_recent_page (page_of files (pos 0) 1) (pos 0) new_search_pane))
scroll-apply_recent_page_example =
    scroll-apply_recent_page files (pos 0) 1 (1 ∷ 2 ∷ []) new_search_pane files-IsDistinct
