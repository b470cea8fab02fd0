-- ===== src/Gallery/Scrolled.antt =====
-- What the gallery holds after it was scrolled through the pages of a list that stays the same.
use hydrus_go.Base.{
  ℕ, zero, suc, ◌+◌, ◌≡◌, refl, false, List, [], ◌∷◌, ◌++◌, take, drop, length, length-append, ap,
  ap₂, sym, ◌∙◌, subst, arith, append_assoc, append-nil,
}
use hydrus_go.Base.Int.{ℤ, pos, negsuc, eqb_ℤ, ltb_ℤ}
use hydrus_go.Gallery.{
  Item, Page, Pane, has_file, plus, merge, limit_of, apply_recent_page, more_recent,
  append_recent_page,
}

-- No two files have the same id.
unfoldable pub IsDistinct : List Item → Type 0
IsDistinct [] = Unit
IsDistinct (item ∷ items) = (has_file item.file_id items ≡ false) × IsDistinct items

-- The daemon's answer to a request, which asks for no negative offset.
abbrev pub page_of : List Item → ℤ → ℕ → Page
page_of files (pos offset) limit = record {
  offset = pos offset;
  limit = pos limit;
  has_more = ltb_ℤ (pos (offset + limit)) (pos (length files));
  items = take limit (drop offset files);
}
page_of files (negsuc k) limit = record {
  offset = pos 0;
  limit = pos limit;
  has_more = ltb_ℤ (pos limit) (pos (length files));
  items = take limit files;
}

-- The pane after more pages with these limits, each asked for at the next offset.
unfoldable pub scroll : List Item → ℤ → List ℕ → Pane → Pane
scroll files preferred [] pane = pane
scroll files preferred (limit ∷ limits) pane =
    scroll files preferred limits
      (append_recent_page (page_of files pane.recent_next_offset limit) preferred pane)

abbrev pub total : List ℕ → ℕ
total [] = 0
total (n ∷ ns) = n + total ns

IsDistinct-take : (n : ℕ) (xs : List Item) → IsDistinct xs → IsDistinct (take n xs)
unfolding IsDistinct has_file
IsDistinct-take zero xs h = tt
IsDistinct-take (suc n) [] h = tt
IsDistinct-take (suc n) (x ∷ xs) (fresh, h) = (absent n xs fresh, IsDistinct-take n xs h)
  where
    absent :
        (n : ℕ) (ys : List Item)
        → has_file x.file_id ys ≡ false
        → has_file x.file_id (take n ys) ≡ false
    absent zero ys h = refl
    absent (suc n) [] h = refl
    absent (suc n) (y ∷ ys) h = ground (arith, absent n ys)

middle-fresh :
    (xs : List Item) (y : Item) (ys : List Item)
    → IsDistinct (xs ++ (y ∷ ys))
    → has_file y.file_id xs ≡ false
unfolding IsDistinct has_file
middle-fresh [] y ys h = refl
middle-fresh (x ∷ xs) y ys (fresh, h) =
    ground (arith, middle-fresh xs y ys h, apart x.file_id xs y ys fresh)
  where
    apart :
        (id : ℤ) (xs : List Item) (y : Item) (ys : List Item)
        → has_file id (xs ++ (y ∷ ys)) ≡ false
        → eqb_ℤ id y.file_id ≡ false
    apart id [] y ys h = ground arith
    apart id (x ∷ xs) y ys h = ground (arith, apart id xs y ys)

-- Files that are new are all added, in their order.
merge-append : (xs ys : List Item) → IsDistinct (xs ++ ys) → merge xs ys ≡ xs ++ ys
unfolding merge
merge-append xs [] h = sym (append-nil xs)
merge-append xs (y ∷ ys) h =
    let moved : (xs ++ (y ∷ [])) ++ ys ≡ xs ++ (y ∷ ys) = append_assoc xs (y ∷ []) ys in
    rw (middle-fresh xs y ys h)
      (merge-append (xs ++ (y ∷ [])) ys (subst IsDistinct (sym moved) h) ∙ moved)

take-plus : (a b : ℕ) (xs : List Item) → take a xs ++ take b (drop a xs) ≡ take (a + b) xs
take-plus zero b xs = let e : b ≡ 0 + b = omega arith in ap (λ k. take k xs) e
take-plus (suc a) b [] = take-nil b ∙ sym (take-nil (suc a + b))
  where
    take-nil : (k : ℕ) → take {A = Item} k [] ≡ []
    take-nil zero = refl
    take-nil (suc k) = refl
take-plus (suc a) b (x ∷ xs) =
    let e : suc (a + b) ≡ suc a + b = omega arith in
    ap (λ l. x ∷ l) (take-plus a b xs) ∙ ap (λ k. take k (x ∷ xs)) e

-- What a pane holds that was scrolled through the first `n` files.
abbrev pub Shows : List Item → ℕ → Pane → Type 0
Shows files n pane =
    (pane.recent ≡ take n files) × (pane.recent_next_offset ≡ pos (length pane.recent))

drop-length_take : (n : ℕ) (xs : List Item) → drop (length (take n xs)) xs ≡ drop n xs
drop-length_take zero xs = refl
drop-length_take (suc n) [] = refl
drop-length_take (suc n) (x ∷ xs) = drop-length_take n xs

append_recent_page-fields :
    (page : Page) (preferred : ℤ) (pane : Pane)
    → ((append_recent_page page preferred pane).recent ≡ merge pane.recent page.items)
      × ((append_recent_page page preferred pane).recent_next_offset
          ≡ plus page.offset (length page.items))
unfolding append_recent_page merge
append_recent_page-fields page preferred pane = by_items counted page.items
  where
    counted : Pane
    counted = record pane {
      recent_limit = limit_of page.limit pane.recent_limit;
      recent_has_more = page.has_more;
      recent_next_offset = plus page.offset (length page.items);
    }

    by_items :
        (base : Pane) (items : List Item)
        → ((more_recent items preferred base).recent ≡ merge base.recent items)
          × ((more_recent items preferred base).recent_next_offset ≡ base.recent_next_offset)
    by_items base [] = (refl, refl)
    by_items base (item ∷ items) = (refl, refl)

merge-take :
    (files : List Item) (n limit : ℕ)
    → IsDistinct files
    → merge (take n files) (take limit (drop n files)) ≡ take (n + limit) files
merge-take files n limit distinct =
    merge-append (take n files) (take limit (drop n files)) (
      subst IsDistinct (sym (take-plus n limit files)) (IsDistinct-take (n + limit) files distinct))
    ∙ take-plus n limit files

append_recent_page-Shows :
    (files : List Item) (preferred : ℤ) (n limit : ℕ) (pane : Pane)
    → IsDistinct files
    → Shows files n pane
    → Shows files
        (n + limit)
        (append_recent_page (page_of files pane.recent_next_offset limit) preferred pane)
append_recent_page-Shows files preferred n limit pane distinct (holds, at) =
    let page = page_of files (pos (length pane.recent)) limit in
    let (combined, next) = append_recent_page-fields page preferred pane in
    let items : page.items ≡ take limit (drop n files) =
      ap (λ l. take limit (drop (length l) files)) holds
      ∙ ap (take limit) (drop-length_take n files) in
    let recent : (append_recent_page page preferred pane).recent ≡ take (n + limit) files =
      combined ∙ ap₂ merge holds items ∙ merge-take files n limit distinct in
    subst (λ o. Shows files (n + limit) (append_recent_page (page_of files o limit) preferred pane))
      (sym at)
      (
        recent,
        next
            ∙ ap pos (
                ap₂ (λ a b. a + b) (ap length holds) (ap length items)
                ∙ sym (length-append (take n files) (take limit (drop n files)))
                ∙ ap length (take-plus n limit files)
                ∙ sym (ap length recent)),
      )

scroll-Shows :
    (files : List Item) (preferred : ℤ) (limits : List ℕ) (n : ℕ) (pane : Pane)
    → IsDistinct files
    → Shows files n pane
    → Shows files (n + total limits) (scroll files preferred limits pane)
unfolding scroll
scroll-Shows files preferred [] n pane distinct shown =
    let e : n ≡ n + 0 = omega arith in subst (λ k. Shows files k pane) e shown
scroll-Shows files preferred (limit ∷ limits) n pane distinct shown =
    let after = append_recent_page (page_of files pane.recent_next_offset limit) preferred pane in
    let e : (n + limit) + total limits ≡ n + (limit + total limits) = omega arith in
    subst (λ k. Shows files k (scroll files preferred limits after)) e
      (scroll-Shows files preferred limits (n + limit) after distinct
        (append_recent_page-Shows files preferred n limit pane distinct shown))

-- If the daemon's list of files has no id twice and stays the same, then after the first page and
-- any number of further pages, whatever their limits are, the gallery shows the first files of the list
-- in its order, as many as the limits add up to, without a gap and none of them twice, and the next
-- offset is the number of the files that it shows.
pub scroll-apply_recent_page :
    (files : List Item) (preferred : ℤ) (first : ℕ) (limits : List ℕ) (pane : Pane)
    → IsDistinct files
    → Shows files (first + total limits) (
        scroll files preferred limits
          (apply_recent_page (page_of files (pos 0) first) preferred pane))
unfolding apply_recent_page
scroll-apply_recent_page files preferred first limits pane distinct =
    scroll-Shows files preferred limits first
      (apply_recent_page (page_of files (pos 0) first) preferred pane) distinct
      (
        refl,
        let e : 0 + length (take first files) ≡ length (take first files) = omega arith in ap pos e,
      )
