-- ===== src/ClientFiles/Placing/Placed.antt =====
-- A placing that succeeds has put the source at the destination, or found it there.
use hydrus_go.Base.{
  ◌≡◌, refl, Bool, true, false, Option, none, some, [], inl, inr, Bool-cases, if◌then◌else◌,
  if_elim, subst, sym, ap, ◌∙◌, ◌⊎◌,
}
use hydrus_go.Base.Strings.{Text, text_eq, text_eq_refl}
use hydrus_go.Base.Results.{Result, ok, err}
use hydrus_go.Base.Maps
use hydrus_go.ClientFiles.Placing.{
  File, Node, regular, irregular, FileSystem, Call, clean_up, create_temp, open_source, copy_bytes,
  sync_temp, close_temp, change_times, link_temp, remove_temp, stat_source, make_directories,
  stat_destination, compare_destination, stat_again, compare_again, World, PlaceError, failed,
  unexpectedly_appeared, Placement, content_at, existing_placement, existing_node, placed_at,
  same_file, same_file_placement, temp_file, give_up, conflicting, remove_linked, link_into,
  link_temp_file, copy_from, copy_into_place, or_copy, place_node, place_path,
}
use hydrus_go.ClientFiles.Placing.Existing.{same_file_placement_sound, verdict-ok}

module _ (w : World) (source_path destination_path : Text) (source : File)
    (temp_apart : text_eq w.temp_path destination_path ≡ false)
    (source_apart : text_eq w.temp_path source_path ≡ false)
    (temp_kept : (g : FileSystem) → w.meanwhile g w.temp_path ≡ g w.temp_path)
    (source_kept : (g : FileSystem)
      → g source_path ≡ some (regular source)
      → w.meanwhile g source_path ≡ some (regular source)) where
  -- The destination is the source, or has its content.
  abbrev pub Holds : FileSystem → Type 0
  Holds fs =
      (d : File) × (fs destination_path ≡ some (regular d))
      × ((same_file source_path source destination_path d ≡ true) ⊎ (d.content ≡ source.content))

  Right : Result PlaceError Placement × FileSystem → Type 0
  Right r =
      (placement : Placement) → r.0 ≡ ok placement → (placement.path ≡ destination_path) × Holds r.1

  err-Right : (e : PlaceError) (fs : FileSystem) → Right (err e, fs)
  unfolding Right
  err-Right e fs placement h = cc

  give_up-Right :
      (e : PlaceError) (fs : FileSystem) → Right (give_up w source_path destination_path e fs)
  unfolding give_up
  give_up-Right e fs = err-Right e _

  some-injective :
      {a b : Result PlaceError Placement}
      → ◌≡◌ {A = Option (Result PlaceError Placement)} (some a) (some b)
      → a ≡ b
  some-injective p = cc

  existing-Right :
      (stat compare : Call) (fs after : FileSystem) (r : Result PlaceError Placement)
      → fs source_path ≡ some (regular source)
      → after destination_path ≡ fs destination_path
      → existing_placement w source_path destination_path stat compare source fs ≡ some r
      → Right (r, after)
  unfolding existing_placement Right
  existing-Right stat compare fs after r here same h placement done =
      elim (Bool-cases (w.fails stat)) [
        | inl failing ↦ cc (some-injective (rw failing at h), done)
        | inr works ↦ at_node (fs destination_path) refl (rw works at h)
      ]
    where
      at_node :
          (node : Option Node)
          → fs destination_path ≡ node
          → existing_node w source_path destination_path compare source fs node ≡ some r
          → (placement.path ≡ destination_path) × Holds after
      at_node none e k = cc
      at_node (some irregular) e k = cc (some-injective k, done)
      at_node (some (regular d)) e k =
          let (v, path) =
            verdict-ok w source_path destination_path source
              (same_file_placement w source_path destination_path compare source d fs) placement
              (some-injective k ∙ done) in
          (
            path,
            (
              d,
              same ∙ e,
              same_file_placement_sound w source_path destination_path source compare fs d here v,
            ),
          )

  cleaned-destination :
      (fs : FileSystem)
      → (if w.fails clean_up then fs else Maps.delete w.temp_path fs) destination_path
        ≡ fs destination_path
  cleaned-destination fs =
      if_elim (λ (g : FileSystem). g destination_path ≡ fs destination_path) (w.fails clean_up) _ _
        (λ _. refl) (λ _. rw temp_apart refl)

  conflicting-Right :
      (fs : FileSystem) (o : Option (Result PlaceError Placement))
      → fs source_path ≡ some (regular source)
      → existing_placement w source_path destination_path stat_again compare_again source fs ≡ o
      → Right (conflicting w source_path destination_path fs o)
  conflicting-Right fs none here e = give_up-Right unexpectedly_appeared fs
  conflicting-Right fs (some r) here e =
      existing-Right stat_again compare_again fs _ r here (cleaned-destination fs) e

  ok-Right :
      (already : Bool) (after : FileSystem) (d : File)
      → after destination_path ≡ some (regular d)
      → d.content ≡ source.content
      → Right (ok (placed_at destination_path already), after)
  unfolding Right
  ok-Right already after d there content placement h = (sym (ap path_of h), (d, there, inr content))
    where
      path_of : Result PlaceError Placement → Text
      path_of (err e) = []
      path_of (ok found) = found.path

  -- The file that is linked has the content of the source.
  linked-Right :
      (fs : FileSystem) (d : File)
      → d.content ≡ source.content
      → Right (
          remove_linked w source_path destination_path
            (Maps.insert destination_path (regular d) fs))
  linked-Right fs d content =
      let linked = Maps.insert destination_path (regular d) fs in
      if_elim Right (w.fails remove_temp) _ _ (λ _. give_up-Right (failed remove_temp) linked)
        (λ _.
          ok-Right false (Maps.delete w.temp_path linked) d
            (rw (temp_apart, text_eq_refl destination_path) refl) content)

  link_into-Right :
      (fs : FileSystem) (d : File) (there : Option Node)
      → fs source_path ≡ some (regular source)
      → d.content ≡ source.content
      → Right (link_into w source_path destination_path source fs (some (regular d)) there)
  link_into-Right fs d none here content = linked-Right fs d content
  link_into-Right fs d (some node) here content =
      conflicting-Right fs
        (existing_placement w source_path destination_path stat_again compare_again source fs) here
        refl

  link_temp_file-Right :
      (fs : FileSystem) (d : File)
      → fs source_path ≡ some (regular source)
      → fs w.temp_path ≡ some (regular d)
      → d.content ≡ source.content
      → Right (link_temp_file w source_path destination_path source fs)
  unfolding link_temp_file
  link_temp_file-Right fs d here temp content =
      if_elim Right (w.fails link_temp) _ _ (λ _. give_up-Right (failed link_temp) fs)
        (λ _.
          subst
            (λ o.
              Right (link_into w source_path destination_path source fs o (fs destination_path)))
            (sym temp) (link_into-Right fs d (fs destination_path) here content))

  insert_temp-source :
      (node : Node) (fs : FileSystem)
      → fs source_path ≡ some (regular source)
      → Maps.insert w.temp_path node fs source_path ≡ some (regular source)
  insert_temp-source node fs here = rw source_apart here

  copy_from-Right :
      (fs : FileSystem)
      → fs source_path ≡ some (regular source)
      → Right (copy_from w source_path destination_path source fs (some source.content))
  copy_from-Right fs here =
      let copied =
        Maps.insert w.temp_path
          (temp_file w source_path destination_path source.content w.created_at) fs in
      let stamped =
        Maps.insert w.temp_path
          (temp_file w source_path destination_path source.content source.modified_at) copied in
      if_elim Right (w.fails copy_bytes) _ _ (λ _. give_up-Right (failed copy_bytes) _)
        (λ _.
          if_elim Right (w.fails sync_temp) _ _ (λ _. give_up-Right (failed sync_temp) copied)
            (λ _.
              if_elim Right (w.fails close_temp) _ _ (λ _. give_up-Right (failed close_temp) copied)
                (λ _.
                  if_elim Right (w.fails change_times) _ _
                    (λ _. give_up-Right (failed change_times) copied)
                    (λ _.
                      link_temp_file-Right (w.meanwhile stamped) _
                        (source_kept stamped
                          (insert_temp-source _ copied (insert_temp-source _ fs here)))
                        (temp_kept stamped ∙ Maps.insert_self w.temp_path _ copied) refl))))

  copy_into_place-Right :
      (fs : FileSystem)
      → fs source_path ≡ some (regular source)
      → Right (copy_into_place w source_path destination_path source fs)
  unfolding copy_into_place
  copy_into_place-Right fs here =
      let created =
        Maps.insert w.temp_path (temp_file w source_path destination_path [] w.created_at) fs in
      let there =
        insert_temp-source (temp_file w source_path destination_path [] w.created_at) fs here in
      if_elim Right (w.fails create_temp) _ _ (λ _. err-Right (failed create_temp) fs)
        (λ _.
          if_elim Right (w.fails open_source) _ _ (λ _. give_up-Right (failed open_source) created)
            (λ _.
              subst
                (λ o.
                  Right (copy_from w source_path destination_path source created (content_at o)))
                (sym there) (copy_from-Right created there)))

  or_copy-Right :
      (fs : FileSystem) (o : Option (Result PlaceError Placement))
      → fs source_path ≡ some (regular source)
      → existing_placement w source_path destination_path stat_destination compare_destination
          source fs
        ≡ o
      → Right (or_copy w source_path destination_path source fs o)
  or_copy-Right fs none here e = copy_into_place-Right fs here
  or_copy-Right fs (some r) here e =
      existing-Right stat_destination compare_destination fs fs r here refl e

  place_path-Right :
      (fs : FileSystem)
      → fs source_path ≡ some (regular source)
      → Right (place_path w source_path destination_path fs)
  unfolding place_path
  place_path-Right fs here =
      if_elim Right (w.fails stat_source) _ _ (λ _. err-Right (failed stat_source) fs)
        (λ _.
          subst (λ o. Right (place_node w source_path destination_path fs o)) (sym here)
            (if_elim Right (w.fails make_directories) _ _
              (λ _. err-Right (failed make_directories) fs)
              (λ _.
                or_copy-Right fs
                  (existing_placement w source_path destination_path stat_destination
                    compare_destination source fs)
                  here refl)))

  -- A placing of a regular file that succeeds returns the destination, and there stands a regular file
  -- with the content of the source, or one that is the same file as the source; provided that the
  -- temporary path is neither the source nor the destination, and that other processes leave the
  -- temporary file and the source alone.
  pub place_path_lem :
      (fs : FileSystem) (placement : Placement)
      → fs source_path ≡ some (regular source)
      → (place_path w source_path destination_path fs).0 ≡ ok placement
      → (placement.path ≡ destination_path) × Holds (place_path w source_path destination_path fs).1
  unfolding Right
  place_path_lem fs placement here done = place_path-Right fs here placement done
