-- ===== src/ClientFiles.antt =====
-- internal/storage/clientfiles/layout.go: where an original or a thumbnail with a given SHA-256 lies
-- below the managed storage roots.
pub mod Hash
pub mod Directory
pub mod Resolve
pub mod Placing
mod Examples
use hydrus_go.Base.{
  ℕ, zero, suc, ◌+◌, Bool, true, false, Option, none, some, List, [], ◌∷◌, ◌++◌, ◌||◌, ◌&&◌, not,
  leb, ltb, ◌==◌, if◌then◌else◌, take, length,
}
use hydrus_go.Base.Strings.{
  Text, codes, trim_space, text_eq, is_empty, byte_len, has_prefix, contains, Casing, to_lower,
}
use hydrus_go.Base.Results.{Result, ok, err, ◌>>=◌}
use hydrus_go.Base.Maps
use hydrus_go.Base.Maps.{Map}
use hydrus_go.Base.Int.{ℤ, pos, negsuc}
use hydrus_go.Base.Paths

pub data LayoutError : Type 0 where
  root_required prefix_too_short prefix_too_long prefix_roots_required : LayoutError
  hash_length hash_character unknown_kind extension_required extension_separator : LayoutError
  prefix_without_hash root_not_configured file_root_required : LayoutError
  managed_prefix_length managed_prefix_kind managed_prefix_character : LayoutError

-- `Kind` is a string type with two constants.
abbrev pub kind_file : Text
kind_file = codes "f"

abbrev pub kind_thumbnail : Text
kind_thumbnail = codes "t"

abbrev pub max_prefix_length : ℕ
max_prefix_length = 64

-- `prefixRoots` is `none` where the map is nil or empty.
pub record Layout : Type 0 where
  pub root : Text
  pub thumbnail_root : Text
  pub prefix_length : ℤ
  pub prefix_roots : Option (Map Text)

pub normalize_root : Text → Result LayoutError Text
normalize_root root =
    let clean_root = Paths.clean (trim_space root) in
    if text_eq clean_root (codes ".") || is_empty clean_root
    then err root_required
    else ok clean_root

pub validate_prefix_length : ℤ → Result LayoutError (Unit {0})
validate_prefix_length (negsuc n) = err prefix_too_short
validate_prefix_length (pos zero) = err prefix_too_short
validate_prefix_length (pos (suc n)) =
    if ltb max_prefix_length (suc n) then err prefix_too_long else ok tt

pub new_split_layout : Text → Text → ℤ → Result LayoutError Layout
new_split_layout file_root thumbnail_root prefix_length = do
  clean_file_root ← normalize_root file_root
  clean_thumbnail_root ← normalize_root thumbnail_root
  _ ← validate_prefix_length prefix_length
  ok (record {
    root = clean_file_root;
    thumbnail_root = clean_thumbnail_root;
    prefix_length = prefix_length;
    prefix_roots = none;
  })

pub new_layout : Text → ℤ → Result LayoutError Layout
new_layout root prefix_length = new_split_layout root root prefix_length

unfoldable pub is_hex_digit : ℕ → Bool
is_hex_digit c = (leb b'0' c && leb c b'9') || (leb b'a' c && leb c b'f')

unfoldable pub all_hex : Text → Bool
all_hex [] = true
all_hex (c ∷ s) = is_hex_digit c && all_hex s

-- A managed prefix is the kind's letter with `prefix_length` hex digits behind it.
pub validate_managed_prefix : Text → ℕ → Result LayoutError (Unit {0})
unfolding all_hex
validate_managed_prefix [] prefix_length = err managed_prefix_length
validate_managed_prefix (kind ∷ digits) prefix_length =
    if not (byte_len (kind ∷ digits) == prefix_length + 1)
    then err managed_prefix_length
    else if not ((kind == b'f') || (kind == b't'))
    then err managed_prefix_kind
    else if all_hex digits
    then ok tt
    else err managed_prefix_character

-- The entries of the map argument come in some order.
normalize_prefix_roots : Casing → ℕ → List (Text × Text) → Map Text → Result LayoutError (Map Text)
normalize_prefix_roots u prefix_length [] roots = ok roots
normalize_prefix_roots u prefix_length ((raw_prefix, raw_root) ∷ raw_roots) roots = do
  let prefix = to_lower u (trim_space raw_prefix)
  _ ← validate_managed_prefix prefix prefix_length
  root ← normalize_root raw_root
  normalize_prefix_roots u prefix_length raw_roots (Maps.insert prefix root roots)

abbrev prefix_layout : Casing → ℤ → List (Text × Text) → Result LayoutError Layout
prefix_layout u prefix_length [] = err prefix_roots_required
prefix_layout u (negsuc n) (r ∷ raw_roots) = err prefix_too_short
prefix_layout u (pos prefix_length) (r ∷ raw_roots) = do
  roots ← normalize_prefix_roots u prefix_length (r ∷ raw_roots) Maps.empty
  ok (record {
    root = [];
    thumbnail_root = [];
    prefix_length = pos prefix_length;
    prefix_roots = some roots;
  })

pub new_prefix_layout : Casing → ℤ → List (Text × Text) → Result LayoutError Layout
new_prefix_layout u prefix_length raw_roots = do
  _ ← validate_prefix_length prefix_length
  prefix_layout u prefix_length raw_roots

pub normalize_sha256_hex : Casing → Text → Result LayoutError Text
normalize_sha256_hex u hash_hex =
    let normalized = to_lower u (trim_space hash_hex) in
    if not (byte_len normalized == 64)
    then err hash_length
    else if all_hex normalized
    then ok normalized
    else err hash_character

abbrev prefix_digits : ℤ → Text → Text
prefix_digits (negsuc n) hash = []
prefix_digits (pos n) hash = take n hash

pub prefix : Casing → Text → Text → ℤ → Result LayoutError Text
prefix u kind hash_hex prefix_length = do
  normalized_hash ← normalize_sha256_hex u hash_hex
  _ ← validate_prefix_length prefix_length
  if text_eq kind kind_file || text_eq kind kind_thumbnail
      then ok (kind ++ prefix_digits prefix_length normalized_hash)
      else err unknown_kind

-- The hash prefix in pieces of two.
pub chunks : Text → List Text
chunks [] = []
chunks (c ∷ []) = (c ∷ []) ∷ []
chunks (c ∷ d ∷ s) = (c ∷ d ∷ []) ∷ chunks s

-- `parts[0] = kind + parts[0]`
pub mark_kind : Text → List Text → List Text
mark_kind kind [] = []
mark_kind kind (part ∷ parts) = (kind ++ part) ∷ parts

pub relative_parts : Text → List Text
unfolding chunks mark_kind
relative_parts [] = []
relative_parts (kind ∷ remainder) = mark_kind (kind ∷ []) (chunks remainder)

pub relative_directory_from_prefix : Text → Result LayoutError Text
relative_directory_from_prefix managed =
    if ltb (byte_len managed) 2
    then err prefix_without_hash
    else ok (Paths.join (relative_parts managed))

pub relative_directory : Casing → Text → Text → ℤ → Result LayoutError Text
relative_directory u kind hash_hex prefix_length = do
  managed ← prefix u kind hash_hex prefix_length
  relative_directory_from_prefix managed

abbrev drop_dot : Text → Text
drop_dot [] = []
drop_dot (c ∷ s) = if c == b'.' then s else c ∷ s

pub normalize_extension : Casing → Text → Result LayoutError Text
normalize_extension u ext =
    let normalized = to_lower u (trim_space ext) in
    let bare = drop_dot normalized in
    if is_empty normalized
    then ok []
    else if is_empty bare
    then err extension_required
    else if contains bare b'/' || contains bare b'\\'
    then err extension_separator
    else ok (b'.' ∷ bare)

-- The root of a layout without a map of prefixes.
abbrev plain_root : Text → Layout → Result LayoutError Text
plain_root managed l =
    if has_prefix managed kind_thumbnail && not (is_empty (trim_space l.thumbnail_root))
    then ok l.thumbnail_root
    else if is_empty (trim_space l.root)
    then err file_root_required
    else ok l.root

abbrev configured : Option Text → Result LayoutError Text
configured none = err root_not_configured
configured (some root) = ok root

abbrev root_in : Option (Map Text) → Text → Layout → Result LayoutError Text
root_in none managed l = plain_root managed l
root_in (some roots) managed l = configured (roots managed)

pub root_for_prefix : Text → Layout → Result LayoutError Text
root_for_prefix managed l = root_in l.prefix_roots managed l

pub root_for_hash : Casing → Text → Text → Layout → Result LayoutError Text
root_for_hash u kind hash_hex l = do
  managed ← prefix u kind hash_hex l.prefix_length
  root_for_prefix managed l

pub resolve_file_path : Casing → Text → Text → Layout → Result LayoutError Text
resolve_file_path u hash_hex ext l = do
  normalized_hash ← normalize_sha256_hex u hash_hex
  normalized_ext ← normalize_extension u ext
  root ← root_for_hash u kind_file normalized_hash l
  relative_dir ← relative_directory u kind_file normalized_hash l.prefix_length
  ok (Paths.join (root ∷ relative_dir ∷ (normalized_hash ++ normalized_ext) ∷ []))

pub resolve_thumbnail_path : Casing → Text → Layout → Result LayoutError Text
resolve_thumbnail_path u hash_hex l = do
  normalized_hash ← normalize_sha256_hex u hash_hex
  root ← root_for_hash u kind_thumbnail normalized_hash l
  relative_dir ← relative_directory u kind_thumbnail normalized_hash l.prefix_length
  ok (Paths.join (root ∷ relative_dir ∷ (normalized_hash ++ codes ".thumbnail") ∷ []))

pub default_file_root : Text → Text
default_file_root db_dir = Paths.join (Paths.clean (trim_space db_dir) ∷ codes "client_files" ∷ [])
