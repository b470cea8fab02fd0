-- ===== src/ClientFiles/Placing/Kept.antt =====
-- Placing a file changes nothing that stands anywhere else than at the temporary path.
use hydrus_go.Base.{
  ℕ, ◌≡◌, refl, false, Option, none, some, List, [], inl, inr, Bool-cases, if◌then◌else◌, if_elim,
  subst,
}
use hydrus_go.Base.Strings.{Text, Casing, text_eq, text_eq_sound}
use hydrus_go.Base.Results.{Result, ok, err}
use hydrus_go.Base.Maps
use hydrus_go.ClientFiles.{LayoutError, Layout, resolve_file_path}
use hydrus_go.ClientFiles.Placing.{
  File, Node, regular, irregular, FileSystem, clean_up, create_temp, open_source, copy_bytes,
  sync_temp, close_temp, change_times, link_temp, remove_temp, stat_source, make_directories,
  stat_destination, compare_destination, stat_again, compare_again, World, PlaceError, failed,
  unexpectedly_appeared, Placement, content_at, existing_placement, temp_file, give_up, conflicting,
  remove_linked, link_into, link_temp_file, copy_from, copy_into_place, or_copy, place_node,
  place_path, place_resolved, place_file_from_path,
}

module _ (w : World) (source_path destination_path p : Text) (n : Node)
    (apart : text_eq w.temp_path p ≡ false)
    (kept : (g : FileSystem) → g p ≡ some n → w.meanwhile g p ≡ some n) where
  Stands : FileSystem → Type 0
  Stands fs = fs p ≡ some n

  Leaves : Result PlaceError Placement × FileSystem → Type 0
  Leaves r = r.1 p ≡ some n

  insert_temp-Stands :
      (node : Node) (fs : FileSystem) → Stands fs → Stands (Maps.insert w.temp_path node fs)
  unfolding Stands
  insert_temp-Stands node fs h = rw apart h

  delete_temp-Stands : (fs : FileSystem) → Stands fs → Stands (Maps.delete w.temp_path fs)
  unfolding Stands
  delete_temp-Stands fs h = rw apart h

  -- A link goes to a path where nothing stands.
  insert_new-Stands :
      (node : Node) (fs : FileSystem)
      → fs destination_path ≡ none
      → Stands fs
      → Stands (Maps.insert destination_path node fs)
  unfolding Stands
  insert_new-Stands node fs free h = elim (Bool-cases (text_eq destination_path p)) [
    | inl same ↦ cc (subst (λ q. fs q ≡ none) (text_eq_sound destination_path p same) free, h)
    | inr other ↦ rw other h
  ]

  cleaned-Stands :
      (fs : FileSystem)
      → Stands fs
      → Stands (if w.fails clean_up then fs else Maps.delete w.temp_path fs)
  cleaned-Stands fs h =
      if_elim Stands (w.fails clean_up) _ _ (λ _. h) (λ _. delete_temp-Stands fs h)

  give_up-Leaves :
      (e : PlaceError) (fs : FileSystem)
      → Stands fs
      → Leaves (give_up w source_path destination_path e fs)
  unfolding Stands Leaves give_up
  give_up-Leaves e fs h = cleaned-Stands fs h

  conflicting-Leaves :
      (fs : FileSystem) (r : Option (Result PlaceError Placement))
      → Stands fs
      → Leaves (conflicting w source_path destination_path fs r)
  unfolding Leaves Stands
  conflicting-Leaves fs none h = give_up-Leaves unexpectedly_appeared fs h
  conflicting-Leaves fs (some result) h = cleaned-Stands fs h

  remove_linked-Leaves :
      (fs : FileSystem) → Stands fs → Leaves (remove_linked w source_path destination_path fs)
  unfolding Leaves Stands
  remove_linked-Leaves fs h =
      if_elim Leaves (w.fails remove_temp) _ _ (λ _. give_up-Leaves (failed remove_temp) fs h)
        (λ _. delete_temp-Stands fs h)

  link_into-Leaves :
      (source : File) (fs : FileSystem) (temp there : Option Node)
      → fs destination_path ≡ there
      → Stands fs
      → Leaves (link_into w source_path destination_path source fs temp there)
  link_into-Leaves source fs none there e h = give_up-Leaves (failed link_temp) fs h
  link_into-Leaves source fs (some temp) (some node) e h =
      conflicting-Leaves fs
        (existing_placement w source_path destination_path stat_again compare_again source fs) h
  link_into-Leaves source fs (some node) none e h =
      remove_linked-Leaves (Maps.insert destination_path node fs) (insert_new-Stands node fs e h)

  link_temp_file-Leaves :
      (source : File) (fs : FileSystem)
      → Stands fs
      → Leaves (link_temp_file w source_path destination_path source fs)
  unfolding link_temp_file
  link_temp_file-Leaves source fs h =
      if_elim Leaves (w.fails link_temp) _ _ (λ _. give_up-Leaves (failed link_temp) fs h)
        (λ _. link_into-Leaves source fs (fs w.temp_path) (fs destination_path) refl h)

  meanwhile-Stands : (fs : FileSystem) → Stands fs → Stands (w.meanwhile fs)
  unfolding Stands
  meanwhile-Stands fs h = kept fs h

  copy_from-Leaves :
      (source : File) (fs : FileSystem) (content : Option (List ℕ))
      → Stands fs
      → Leaves (copy_from w source_path destination_path source fs content)
  copy_from-Leaves source fs none h = give_up-Leaves (failed open_source) fs h
  copy_from-Leaves source fs (some content) h =
      let copied =
        Maps.insert w.temp_path (temp_file w source_path destination_path content w.created_at)
          fs in
      let there : Stands copied = insert_temp-Stands _ fs h in
      if_elim Leaves (w.fails copy_bytes) _ _
        (λ _. give_up-Leaves (failed copy_bytes) _ (insert_temp-Stands _ fs h))
        (λ _.
          if_elim Leaves (w.fails sync_temp) _ _
            (λ _. give_up-Leaves (failed sync_temp) copied there)
            (λ _.
              if_elim Leaves (w.fails close_temp) _ _
                (λ _. give_up-Leaves (failed close_temp) copied there)
                (λ _.
                  if_elim Leaves (w.fails change_times) _ _
                    (λ _. give_up-Leaves (failed change_times) copied there)
                    (λ _.
                      link_temp_file-Leaves source _
                        (meanwhile-Stands _ (insert_temp-Stands _ copied there))))))

  copy_into_place-Leaves :
      (source : File) (fs : FileSystem)
      → Stands fs
      → Leaves (copy_into_place w source_path destination_path source fs)
  unfolding copy_into_place Leaves Stands
  copy_into_place-Leaves source fs h =
      let created =
        Maps.insert w.temp_path (temp_file w source_path destination_path [] w.created_at) fs in
      if_elim Leaves (w.fails create_temp) _ _ (λ _. h)
        (λ _.
          if_elim Leaves (w.fails open_source) _ _
            (λ _. give_up-Leaves (failed open_source) created (insert_temp-Stands _ fs h))
            (λ _.
              copy_from-Leaves source created (content_at (created source_path))
                (insert_temp-Stands _ fs h)))

  or_copy-Leaves :
      (source : File) (fs : FileSystem) (r : Option (Result PlaceError Placement))
      → Stands fs
      → Leaves (or_copy w source_path destination_path source fs r)
  unfolding Stands Leaves
  or_copy-Leaves source fs (some result) h = h
  or_copy-Leaves source fs none h = copy_into_place-Leaves source fs h

  place_node-Leaves :
      (fs : FileSystem) (node : Option Node)
      → Stands fs
      → Leaves (place_node w source_path destination_path fs node)
  unfolding Stands Leaves
  place_node-Leaves fs none h = h
  place_node-Leaves fs (some irregular) h = h
  place_node-Leaves fs (some (regular source)) h =
      if_elim Leaves (w.fails make_directories) _ _ (λ _. h)
        (λ _.
          or_copy-Leaves source fs
            (existing_placement w source_path destination_path stat_destination compare_destination
              source fs)
            h)

  place_path-Leaves :
      (fs : FileSystem) → Stands fs → Leaves (place_path w source_path destination_path fs)
  unfolding place_path Stands Leaves
  place_path-Leaves fs h =
      if_elim Leaves (w.fails stat_source) _ _ (λ _. h)
        (λ _. place_node-Leaves fs (fs source_path) h)

-- Whatever fails and wherever it goes, PlaceFileFromPath leaves in place what stands at any path
-- other than that of its temporary file, if the other processes do so: it overwrites no file, not
-- even one that appears at the destination while it copies, and the source stays.
pub place_file_from_path-keeps :
    (w : World) (u : Casing) (source_path hash_hex ext : Text) (l : Layout) (fs : FileSystem)
    (p : Text) (n : Node)
    → text_eq w.temp_path p ≡ false
    → ((g : FileSystem) → g p ≡ some n → w.meanwhile g p ≡ some n)
    → fs p ≡ some n
    → (place_file_from_path w u source_path hash_hex ext l fs).1 p ≡ some n
unfolding place_file_from_path Leaves Stands
place_file_from_path-keeps w u source_path hash_hex ext l fs p n apart kept h =
    resolved (resolve_file_path u hash_hex ext l)
  where
    resolved : (r : Result LayoutError Text) → (place_resolved w source_path r fs).1 p ≡ some n
    resolved (err e) = h
    resolved (ok destination_path) =
        place_path-Leaves w source_path destination_path p n apart kept fs h
