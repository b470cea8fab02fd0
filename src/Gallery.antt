-- ===== src/Gallery.antt =====
-- internal/desktop/fyneapp/app.go: the pages of files that the gallery of the desktop client holds, and
-- the steps from file to file in its viewer.
pub mod Scrolled
mod Examples
use hydrus_go.Base.{
  ℕ, zero, suc, ◌+◌, ◌-◌, Bool, true, false, not, ◌&&◌, Option, none, some, List, [], ◌∷◌, ◌++◌,
  if◌then◌else◌, ltb, leb, length,
}
use hydrus_go.Base.Strings.{Text}
use hydrus_go.Base.Int.{ℤ, pos, negsuc, ltb_ℤ, leb_ℤ, eqb_ℤ}

pub record Item : Type 0 where
  pub file_id : ℤ
  pub hash : Text
  pub mime : Text
  pub width : Option ℤ
  pub height : Option ℤ
  pub imported_at_ms : Option ℤ
  pub has_thumbnail : Bool
  pub content_url : Text
  pub thumbnail_url : Text
  pub metadata_url : Text

pub record Page : Type 0 where
  pub offset : ℤ
  pub limit : ℤ
  pub has_more : Bool
  pub items : List Item

-- The part of a search pane that the pages change.
pub record Pane : Type 0 where
  pub recent_limit : ℤ
  pub recent_next_offset : ℤ
  pub recent_has_more : Bool
  pub search_next_offset : ℤ
  pub search_has_more : Bool
  pub recent : List Item
  pub search_results : List Item
  pub selected_file_id : ℤ

abbrev pub recent_page_limit : ℤ
recent_page_limit = pos 120

-- `newSearchPane`
abbrev pub new_search_pane : Pane
new_search_pane = record {
  recent_limit = recent_page_limit;
  recent_next_offset = pos 0;
  recent_has_more = false;
  search_next_offset = pos 0;
  search_has_more = false;
  recent = [];
  search_results = [];
  selected_file_id = pos 0;
}

-- `hasRecentFile` and `hasSearchFile`
unfoldable pub has_file : ℤ → List Item → Bool
has_file id [] = false
has_file id (item ∷ items) =
    let rest = has_file id items in if eqb_ℤ item.file_id id then true else rest

-- A number plus a length
abbrev pub plus : ℤ → ℕ → ℤ
plus (pos a) n = pos (a + n)
plus (negsuc a) n = if ltb a n then pos (n - suc a) else negsuc (a - n)

abbrev pub preferred_in : ℤ → List Item → ℤ
preferred_in id items = if ltb_ℤ (pos 0) id && not (has_file id items) then pos 0 else id

abbrev pub add_new_file : Item → List Item → List Item
add_new_file item combined =
    if has_file item.file_id combined then combined else combined ++ (item ∷ [])

-- The map `seen` has the ids of the combined items.
unfoldable pub merge : List Item → List Item → List Item
merge combined [] = combined
merge combined (item ∷ items) = merge (add_new_file item combined) items

abbrev pub limit_of : ℤ → ℤ → ℤ
limit_of limit otherwise = if ltb_ℤ (pos 0) limit then limit else otherwise

-- `applyRecentPage` with `applyRecentItems`
unfoldable pub apply_recent_page : Page → ℤ → Pane → Pane
apply_recent_page page preferred pane = record pane {
  recent_limit = if leb_ℤ page.limit (pos 0) then recent_page_limit else page.limit;
  recent_has_more = page.has_more;
  recent_next_offset = plus page.offset (length page.items);
  recent = page.items;
  selected_file_id = preferred_in preferred page.items;
}

-- `applySearchPage` with `applySearchItems`
unfoldable pub apply_search_page : Page → ℤ → Pane → Pane
apply_search_page page preferred pane =
    let limit = limit_of page.limit pane.recent_limit in
    record pane {
      recent_limit = if leb_ℤ limit (pos 0) then recent_page_limit else limit;
      search_has_more = page.has_more;
      search_next_offset = plus page.offset (length page.items);
      search_results = page.items;
      selected_file_id = preferred_in preferred page.items;
    }

abbrev pub more_recent : List Item → ℤ → Pane → Pane
more_recent [] preferred pane = pane
more_recent (item ∷ items) preferred pane =
    let combined = merge pane.recent (item ∷ items) in
    record pane { recent = combined; selected_file_id = preferred_in preferred combined }

-- `appendRecentPage`
unfoldable pub append_recent_page : Page → ℤ → Pane → Pane
append_recent_page page preferred pane = more_recent page.items preferred (record pane {
  recent_limit = limit_of page.limit pane.recent_limit;
  recent_has_more = page.has_more;
  recent_next_offset = plus page.offset (length page.items);
})

abbrev pub more_results : List Item → ℤ → Pane → Pane
more_results [] preferred pane = pane
more_results (item ∷ items) preferred pane =
    let combined = merge pane.search_results (item ∷ items) in
    record pane { search_results = combined; selected_file_id = preferred_in preferred combined }

-- `appendSearchPage`
unfoldable pub append_search_page : Page → ℤ → Pane → Pane
append_search_page page preferred pane = more_results page.items preferred (record pane {
  recent_limit = limit_of page.limit pane.recent_limit;
  search_has_more = page.has_more;
  search_next_offset = plus page.offset (length page.items);
})

unfoldable pub index_of : ℤ → List Item → Option ℕ
index_of id [] = none
index_of id (item ∷ items) =
    let rest = index_of id items in if eqb_ℤ item.file_id id then some 0 else later rest
  where
    later : Option ℕ → Option ℕ
    later none = none
    later (some i) = some (suc i)

-- The id at an index, which is always within the list.
unfoldable pub id_at : ℕ → List Item → ℤ
id_at i [] = pos 0
id_at zero (item ∷ items) = item.file_id
id_at (suc i) (item ∷ items) = id_at i items

abbrev pub clamp : ℤ → ℕ → ℕ
clamp (negsuc k) n = 0
clamp (pos k) n = if leb n k then n - 1 else k

abbrev pub step_to : List Item → ℤ → Option ℕ → ℤ × ℤ
step_to items delta none = (pos 0, negsuc 0)
step_to items delta (some i) =
    (id_at (clamp (plus delta i) (length items)) items, pos (clamp (plus delta i) (length items)))

-- `nextWatcherFileID`
unfoldable pub next_watcher_file_id : List Item → ℤ → ℤ → ℤ × ℤ
next_watcher_file_id [] current delta = (pos 0, negsuc 0)
next_watcher_file_id (item ∷ items) current delta =
    if leb_ℤ current (pos 0)
    then (pos 0, negsuc 0)
    else step_to (item ∷ items) delta (index_of current (item ∷ items))
