-- ===== src/ClientFiles/Placing/Existing.antt =====
-- What a comparison with the file at the destination of a placing shows.
use hydrus_go.Base.{
  ◌≡◌, refl, Bool, true, false, some, [], inl, inr, if◌then◌else◌, sym, ap, ◌⊎◌, length, ◌==◌, ◌&&◌,
  not,
}
use hydrus_go.Base.Strings.{Text, text_eq_sound}
use hydrus_go.Base.Results.{Result, ok, err}
use hydrus_go.ClientFiles.Placing.{
  File, regular, FileSystem, Call, World, PlaceError, failed, Placement, content_at, verdict,
  contents_eq, same_file, coarse_time, same_file_placement,
}

module _ (w : World) (source_path destination_path : Text) (source : File) where
  contents_sound :
      (compare : Call) (fs : FileSystem) (d : File)
      → fs source_path ≡ some (regular source)
      → contents_eq compare (content_at (fs source_path)) d.content ≡ ok true
      → d.content ≡ source.content
  contents_sound compare fs d here h =
      sym (text_eq_sound source.content d.content (ok-injective (rw here at h)))
    where
      ok-injective : {a b : Bool} → ◌≡◌ {A = Result PlaceError Bool} (ok a) (ok b) → a ≡ b
      ok-injective p = cc

  passed :
      (a b c f : Bool) (e : PlaceError) (r : Result PlaceError Bool)
      → (if a
          then ok true
          else if b
          then ok false
          else if c
          then ok false
          else if f
          then err e
          else r)
        ≡ ok true
      → (a ≡ true) ⊎ (r ≡ ok true)
  passed true b c f e r h = inl refl
  passed false true c f e r h = cc
  passed false false true f e r h = cc
  passed false false false true e r h = cc
  passed false false false false e r h = inr h

  pub same_file_placement_sound :
      (compare : Call) (fs : FileSystem) (d : File)
      → fs source_path ≡ some (regular source)
      → same_file_placement w source_path destination_path compare source d fs ≡ ok true
      → (same_file source_path source destination_path d ≡ true) ⊎ (d.content ≡ source.content)
  unfolding same_file_placement
  same_file_placement_sound compare fs d here h =
      elim (passed (same_file source_path source destination_path d)
        (not (length source.content == length d.content))
        (not (source.modified_at == d.modified_at)
          && not (coarse_time source.modified_at == coarse_time d.modified_at))
        (w.fails compare) (failed compare)
        (contents_eq compare (content_at (fs source_path)) d.content) h) [
          | inl same ↦ inl same
          | inr equal ↦ inr (contents_sound compare fs d here equal)
        ]

  pub verdict-ok :
      (v : Result PlaceError Bool) (placement : Placement)
      → verdict w source_path destination_path v ≡ ok placement
      → (v ≡ ok true) × (placement.path ≡ destination_path)
  verdict-ok (err e) placement h = cc
  verdict-ok (ok false) placement h = cc
  verdict-ok (ok true) placement h = (refl, sym (ap path_of h))
    where
      path_of : Result PlaceError Placement → Text
      path_of (err e) = []
      path_of (ok found) = found.path
