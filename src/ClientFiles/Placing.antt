-- ===== src/ClientFiles/Placing.antt =====
-- internal/storage/clientfiles/place.go: how a managed file is put into its place. A file system gives
-- every path what stands there; directories are made as they are needed and are not kept.
pub mod Existing
pub mod Kept
pub mod Placed
use hydrus_go.Base.{
  ℕ, ◌≡◌, Bool, true, false, not, ◌&&◌, ◌||◌, ◌==◌, ◌/◌, Option, none, some, List, [], ◌∷◌, ◌++◌,
  if◌then◌else◌, length,
}
use hydrus_go.Base.Strings.{Text, Casing, text_eq}
use hydrus_go.Base.Results.{Result, ok, err}
use hydrus_go.Base.Maps
use hydrus_go.Base.Maps.{Map}
use hydrus_go.ClientFiles.{LayoutError, Layout, resolve_file_path, resolve_thumbnail_path}

-- Times are in nanoseconds. Two paths are the same file if they have one inode.
pub record File : Type 0 where
  pub content : List ℕ
  pub modified_at : ℕ
  pub inode : ℕ

pub data Node : Type 0 where
  regular : File → Node
  irregular : Node

abbrev pub FileSystem : Type 0
FileSystem = Map Node

-- The calls of the operating system that can fail. The first two stats and comparisons are those before
-- the copy, the others those after a link that found something at the destination.
pub data Call : Type 0 where
  stat_source make_directories stat_destination compare_destination : Call
  create_temp open_source copy_bytes sync_temp close_temp change_times link_temp : Call
  stat_again compare_again remove_temp clean_up : Call

-- What the operating system does during a call: the temporary path and its inode, the calls that fail,
-- what a failing copy has written, and what other processes do before the link.
pub record World : Type 0 where
  pub temp_path : Text
  pub temp_inode : ℕ
  pub created_at : ℕ
  pub fails : Call → Bool
  pub partly_copied : List ℕ
  pub meanwhile : FileSystem → FileSystem

pub data PlaceError : Type 0 where
  layout_error : LayoutError → PlaceError
  failed : Call → PlaceError
  source_irregular destination_irregular destination_conflict : PlaceError
  unexpectedly_appeared : PlaceError

pub record Placement : Type 0 where
  pub path : Text
  pub already_present : Bool

abbrev pub placed_at : Text → Bool → Placement
placed_at path already = record { path = path; already_present = already }

-- `sameFile`
abbrev pub same_file : Text → File → Text → File → Bool
same_file source_path source destination_path destination =
    text_eq source_path destination_path || source.inode == destination.inode

abbrev pub coarse_time : ℕ → ℕ
coarse_time t = t / 1000000000

abbrev pub content_at : Option Node → Option (List ℕ)
content_at none = none
content_at (some irregular) = none
content_at (some (regular file)) = some file.content

-- `sameFileContents`: the reads fill their buffers except at the end of a file, so that the loop compares
-- the contents.
abbrev pub contents_eq : Call → Option (List ℕ) → List ℕ → Result PlaceError Bool
contents_eq call none destination = err (failed call)
contents_eq call (some source) destination = ok (text_eq source destination)

module _ (w : World) (source_path destination_path : Text) where
  -- `sameFilePlacement`, with the source as it was when it was looked at
  unfoldable pub same_file_placement : Call → File → File → FileSystem → Result PlaceError Bool
  same_file_placement compare source destination fs =
      if same_file source_path source destination_path destination
      then ok true
      else if not (length source.content == length destination.content)
      then ok false
      else if not (source.modified_at == destination.modified_at)
          && not (coarse_time source.modified_at == coarse_time destination.modified_at)
      then ok false
      else if w.fails compare
      then err (failed compare)
      else contents_eq compare (content_at (fs source_path)) destination.content

  abbrev pub verdict : Result PlaceError Bool → Result PlaceError Placement
  verdict (err e) = err e
  verdict (ok true) = ok (placed_at destination_path true)
  verdict (ok false) = err destination_conflict

  abbrev pub existing_node :
      Call → File → FileSystem → Option Node → Option (Result PlaceError Placement)
  existing_node compare source fs none = none
  existing_node compare source fs (some irregular) = some (err destination_irregular)
  existing_node compare source fs (some (regular destination)) =
      some (verdict (same_file_placement compare source destination fs))

  -- `existingPlacementResult`: none if it has not handled the destination
  unfoldable pub existing_placement :
      Call → Call → File → FileSystem → Option (Result PlaceError Placement)
  existing_placement stat compare source fs =
      if w.fails stat
      then some (err (failed stat))
      else existing_node compare source fs (fs destination_path)

  abbrev pub temp_file : List ℕ → ℕ → Node
  temp_file content modified_at =
      regular (record { content = content; modified_at = modified_at; inode = w.temp_inode })

  -- The deferred removal of the temporary file
  unfoldable pub give_up : PlaceError → FileSystem → Result PlaceError Placement × FileSystem
  give_up e fs = (err e, if w.fails clean_up then fs else Maps.delete w.temp_path fs)

  abbrev pub conflicting :
      FileSystem → Option (Result PlaceError Placement) → Result PlaceError Placement × FileSystem
  conflicting fs none = give_up unexpectedly_appeared fs
  conflicting fs (some result) =
      (result, if w.fails clean_up then fs else Maps.delete w.temp_path fs)

  abbrev pub remove_linked : FileSystem → Result PlaceError Placement × FileSystem
  remove_linked fs =
      if w.fails remove_temp
      then give_up (failed remove_temp) fs
      else (ok (placed_at destination_path false), Maps.delete w.temp_path fs)

  -- `linkTempFileIntoPlace` and what follows it; os.Link never replaces what stands at its target.
  abbrev pub link_into :
      File → FileSystem → Option Node → Option Node → Result PlaceError Placement × FileSystem
  link_into source fs none there = give_up (failed link_temp) fs
  link_into source fs (some temp) (some there) =
      conflicting fs (existing_placement stat_again compare_again source fs)
  link_into source fs (some temp) none = remove_linked (Maps.insert destination_path temp fs)

  unfoldable pub link_temp_file : File → FileSystem → Result PlaceError Placement × FileSystem
  link_temp_file source fs =
      if w.fails link_temp
      then give_up (failed link_temp) fs
      else link_into source fs (fs w.temp_path) (fs destination_path)

  abbrev pub copy_from :
      File → FileSystem → Option (List ℕ) → Result PlaceError Placement × FileSystem
  copy_from source fs none = give_up (failed open_source) fs
  copy_from source fs (some content) =
      if w.fails copy_bytes
      then give_up (failed copy_bytes)
          (Maps.insert w.temp_path (temp_file w.partly_copied w.created_at) fs)
      else let copied = Maps.insert w.temp_path (temp_file content w.created_at) fs in
        if w.fails sync_temp
        then give_up (failed sync_temp) copied
        else if w.fails close_temp
        then give_up (failed close_temp) copied
        else if w.fails change_times
        then give_up (failed change_times) copied
        else link_temp_file source
            (w.meanwhile (Maps.insert w.temp_path (temp_file content source.modified_at) copied))

  unfoldable pub copy_into_place : File → FileSystem → Result PlaceError Placement × FileSystem
  copy_into_place source fs =
      if w.fails create_temp
      then (err (failed create_temp), fs)
      else let created = Maps.insert w.temp_path (temp_file [] w.created_at) fs in
        if w.fails open_source
        then give_up (failed open_source) created
        else copy_from source created (content_at (created source_path))

  abbrev pub or_copy :
      File
      → FileSystem
      → Option (Result PlaceError Placement)
      → Result PlaceError Placement × FileSystem
  or_copy source fs (some result) = (result, fs)
  or_copy source fs none = copy_into_place source fs

  abbrev pub place_node : FileSystem → Option Node → Result PlaceError Placement × FileSystem
  place_node fs none = (err (failed stat_source), fs)
  place_node fs (some irregular) = (err source_irregular, fs)
  place_node fs (some (regular source)) =
      if w.fails make_directories
      then (err (failed make_directories), fs)
      else or_copy source fs (existing_placement stat_destination compare_destination source fs)

  -- `placePath`
  unfoldable pub place_path : FileSystem → Result PlaceError Placement × FileSystem
  place_path fs =
      if w.fails stat_source then (err (failed stat_source), fs) else place_node fs (fs source_path)

abbrev pub place_resolved :
    World → Text → Result LayoutError Text → FileSystem → Result PlaceError Placement × FileSystem
place_resolved w source_path (err e) fs = (err (layout_error e), fs)
place_resolved w source_path (ok destination_path) fs = place_path w source_path destination_path fs

-- `PlaceFileFromPath`
unfoldable pub place_file_from_path :
    World
    → Casing
    → Text
    → Text
    → Text
    → Layout
    → FileSystem
    → Result PlaceError Placement × FileSystem
place_file_from_path w u source_path hash_hex ext l fs =
    place_resolved w source_path (resolve_file_path u hash_hex ext l) fs

-- `PlaceThumbnailFromPath`
unfoldable pub place_thumbnail_from_path :
    World → Casing → Text → Text → Layout → FileSystem → Result PlaceError Placement × FileSystem
place_thumbnail_from_path w u source_path hash_hex l fs =
    place_resolved w source_path (resolve_thumbnail_path u hash_hex l) fs
