-- ===== src/ClientFiles/Examples.antt =====
-- Paths of a concrete file in a concrete layout.
use hydrus_go.Base.{none, some, false, [], ◌∷◌, ◌++◌, ◌≡◌, refl, arith}
use hydrus_go.Base.Strings.{Text, codes, trim_space, text_eq, ascii_casing, byte_len, contains}
use hydrus_go.Base.Int.{pos}
use hydrus_go.Base.Results.{ok}
use hydrus_go.Base.Paths
use hydrus_go.ClientFiles.{
  Layout, all_hex, is_hex_digit, new_split_layout, normalize_root, validate_prefix_length,
  normalize_sha256_hex, normalize_extension, resolve_file_path, relative_parts,
}
use hydrus_go.Base.Maps
use hydrus_go.ClientFiles.Placing.{
  File, regular, FileSystem, World, placed_at, existing_placement, copy_into_place, link_temp_file,
  place_path, place_file_from_path,
}
use hydrus_go.ClientFiles.Placing.Kept.{place_file_from_path-keeps}
use hydrus_go.ClientFiles.Placing.Placed.{Holds, place_path_lem}
use hydrus_go.ClientFiles.Resolve.{IsPlain, resolve_file_path-injective, resolve_file_path_total}

abbrev raw_hash : Text
raw_hash = codes " 0123456789ABCDEF0123456789abcdef0123456789abcdef0123456789abcdef"

abbrev hash : Text
hash = codes "0123456789abcdef0123456789abcdef0123456789abcdef0123456789abcdef"

abbrev layout : Layout
layout = record {
  root = codes "/db/client_files";
  thumbnail_root = codes "/db/thumbs";
  prefix_length = pos 2;
  prefix_roots = none;
}

layout_made :
    new_split_layout (codes "/db/client_files/") (codes "/db/./thumbs") (pos 2) ≡ ok layout
unfolding new_split_layout normalize_root Paths.clean trim_space text_eq validate_prefix_length
layout_made = refl

layout-IsPlain : IsPlain 1 layout
unfolding trim_space
layout-IsPlain = record { roots = refl; length = refl; fits = omega arith; named = refl }

hash_read : normalize_sha256_hex ascii_casing raw_hash ≡ ok hash
unfolding normalize_sha256_hex trim_space byte_len all_hex is_hex_digit
hash_read = refl

extension_read : normalize_extension ascii_casing (codes "JPG") ≡ ok (codes ".jpg")
unfolding normalize_extension trim_space contains
extension_read = refl

raw_hash_resolved :
    resolve_file_path ascii_casing raw_hash (codes "JPG") layout
    ≡ ok (
        Paths.join (
          codes "/db/client_files"
          ∷ Paths.join (relative_parts (codes "f01"))
          ∷ (hash ++ codes ".jpg")
          ∷ []))
raw_hash_resolved =
    resolve_file_path_total ascii_casing raw_hash (codes "JPG") hash (codes ".jpg") 1 layout
      layout-IsPlain hash_read extension_read

abbrev stored : Text
stored = Paths.join (
    codes "/db/client_files"
    ∷ Paths.join (relative_parts (codes "f01"))
    ∷ (hash ++ codes ".jpg")
    ∷ [])

stored_spelled :
    stored
    ≡ codes
        "/db/client_files/f01/0123456789abcdef0123456789abcdef0123456789abcdef0123456789abcdef.jpg"
unfolding Paths.join relative_parts
stored_spelled = refl

resolve_file_path-injective_example :
    normalize_sha256_hex ascii_casing raw_hash ≡ normalize_sha256_hex ascii_casing raw_hash
resolve_file_path-injective_example =
    resolve_file_path-injective ascii_casing raw_hash raw_hash (codes "JPG") (codes "JPG") layout
      layout stored raw_hash_resolved raw_hash_resolved

abbrev source : Text
source = codes "/in/a"

abbrev source_file : File
source_file = record { content = 1 ∷ 2 ∷ []; modified_at = 1500000000; inode = 7 }

abbrev old_file : File
old_file = record { content = 9 ∷ []; modified_at = 3; inode = 8 }

-- The source, and another file at the destination.
abbrev files : FileSystem
files = Maps.insert source (regular source_file) (Maps.insert stored (regular old_file) Maps.empty)

abbrev fresh_files : FileSystem
fresh_files = Maps.insert source (regular source_file) Maps.empty

abbrev destination : Text
destination = codes "/db/a"

abbrev world : World
world = record {
  temp_path = codes "/db/.hydrus-go-place-1";
  temp_inode = 20;
  created_at = 5000;
  fails = λ call. false;
  partly_copied = [];
  meanwhile = λ g. g;
}

temp_apart : text_eq world.temp_path stored ≡ false
unfolding text_eq
temp_apart = rw stored_spelled refl

old_file_there : files stored ≡ some (regular old_file)
unfolding text_eq Paths.join relative_parts
old_file_there = refl

place_file_from_path-keeps_example :
    (place_file_from_path world ascii_casing source raw_hash (codes "JPG") layout files).1 stored
    ≡ some (regular old_file)
place_file_from_path-keeps_example =
    place_file_from_path-keeps world ascii_casing source raw_hash (codes "JPG") layout files stored
      (regular old_file) temp_apart (λ g h. h) old_file_there

temp_apart_destination : text_eq world.temp_path destination ≡ false
unfolding text_eq
temp_apart_destination = refl

temp_apart_source : text_eq world.temp_path source ≡ false
unfolding text_eq
temp_apart_source = refl

source_there : fresh_files source ≡ some (regular source_file)
unfolding text_eq
source_there = refl

placed : (place_path world source destination fresh_files).0 ≡ ok (placed_at destination false)
unfolding place_path existing_placement copy_into_place link_temp_file text_eq
placed = refl

place_path_example :
    (destination ≡ destination)
    × Holds world source destination source_file temp_apart_destination temp_apart_source
        (λ g. refl)
        (λ g h. h)
        (place_path world source destination fresh_files).1
place_path_example =
    place_path_lem world source destination source_file temp_apart_destination temp_apart_source
      (λ g. refl) (λ g h. h) fresh_files (placed_at destination false) source_there placed
