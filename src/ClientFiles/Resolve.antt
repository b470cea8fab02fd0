-- ===== src/ClientFiles/Resolve.antt =====
-- `ResolveFilePath` and `ResolveThumbnailPath`.
use hydrus_go.Base.{
  ℕ, zero, suc, ◌≤◌, Bool, true, false, none, [], ◌∷◌, ◌++◌, ◌≡◌, refl, ap, sym, ◌∙◌, subst, inl,
  inr, Bool-cases, All, All-append, length, arith, ◌==◌, ◌||◌, if◌then◌else◌, take,
}
use hydrus_go.Base.Strings.{
  Text, Casing, codes, contains, is_empty, to_lower, trim_space, has_prefix,
}
use hydrus_go.Base.Int.{pos}
use hydrus_go.Base.Paths
use hydrus_go.Base.Paths.Last.{IsName, last_element, last_element-join}
use hydrus_go.Base.Results.{Result, ok, err, >>=-eq-ok}
use hydrus_go.ClientFiles.{
  LayoutError, Layout, is_hex_digit, all_hex, normalize_sha256_hex, normalize_extension,
  root_for_hash, relative_directory, relative_parts, resolve_file_path, resolve_thumbnail_path,
  kind_file, kind_thumbnail, root_for_prefix, drop_dot, max_prefix_length, extension_required,
  extension_separator,
}
use hydrus_go.ClientFiles.Hash.{IsHash, normalize-IsHash}
use hydrus_go.ClientFiles.Directory.{prefix_ok, relative_directory_ok}

abbrev NoSlash : ℕ → Type 0
NoSlash d = (d == b'/') ≡ false

lacks-NoSlash : (s : Text) → contains s b'/' ≡ false → All NoSlash s
unfolding contains
lacks-NoSlash [] h = tt
lacks-NoSlash (c ∷ s) h = (ground arith, lacks-NoSlash s (ground arith))

-- An accepted extension is empty, or a dot with no path separator behind it.
extension-NoSlash : (u : Casing) (ext x : Text) → normalize_extension u ext ≡ ok x → All NoSlash x
unfolding normalize_extension
extension-NoSlash u ext x =
    accepted (to_lower u (trim_space ext)) (drop_dot (to_lower u (trim_space ext)))
  where
    ok-injective : (a : Text) → ◌≡◌ {A = Result LayoutError Text} (ok a) (ok x) → a ≡ x
    ok-injective a e = cc

    accepted :
        (normalized bare : Text)
        → (if is_empty normalized
            then ok []
            else if is_empty bare
            then err extension_required
            else if contains bare b'/' || contains bare b'\\'
            then err extension_separator
            else ok (b'.' ∷ bare))
          ≡ ok x
        → All NoSlash x
    accepted [] bare e = subst (All NoSlash) (ok-injective [] e) tt
    accepted (c ∷ n) [] e = cc
    accepted (c ∷ n) (d ∷ bare) e =
        elim (Bool-cases (contains (d ∷ bare) b'/' || contains (d ∷ bare) b'\\')) [
          | inl k ↦ cc (rw k at e)
          | inr k ↦
              subst (All NoSlash) (ok-injective (b'.' ∷ d ∷ bare) (rw k at e))
                (refl, lacks-NoSlash (d ∷ bare) (ground arith))
        ]

hex-name : (h : Text) → all_hex h ≡ true → All NoSlash h
unfolding all_hex is_hex_digit
hex-name [] k = tt
hex-name (c ∷ h) k = (ground arith, hex-name h (ground arith))

hash-IsName : (h x : Text) → IsHash h → All NoSlash x → IsName (h ++ x)
unfolding all_hex is_hex_digit
hash-IsName [] x k hx = absurd (omega (arith, k.size))
hash-IsName (c ∷ h) x k hx =
    (ground (arith, k.digits), All-append NoSlash (c ∷ h) x (hex-name (c ∷ h) k.digits) hx)

-- The last element of a resolved path is the normalised hash with the normalised extension,
-- whatever the layout.
pub resolve_file_path-last :
    (u : Casing) (raw ext : Text) (l : Layout) (p : Text)
    → resolve_file_path u raw ext l ≡ ok p
    → (h : Text) × (x : Text) × (normalize_sha256_hex u raw ≡ ok h)
      × (normalize_extension u ext ≡ ok x)
      × (last_element p ≡ h ++ x)
unfolding resolve_file_path
resolve_file_path-last u raw ext l p e =
    let (h, eh, e1) = >>=-eq-ok (normalize_sha256_hex u raw) _ e in
    let (x, ex, e2) = >>=-eq-ok (normalize_extension u ext) _ e1 in
    let (root, er, e3) = >>=-eq-ok (root_for_hash u kind_file h l) _ e2 in
    let (dir, ed, e4) = >>=-eq-ok (relative_directory u kind_file h l.prefix_length) _ e3 in
    (
      h,
      x,
      eh,
      ex,
      ap last_element (sym (joined root dir (h ++ x) e4))
          ∙ last_element-join (root ∷ dir ∷ []) (h ++ x)
              (hash-IsName h x (normalize-IsHash u raw h eh) (extension-NoSlash u ext x ex)),
    )
  where
    joined :
        (root dir name : Text)
        → ◌≡◌ {A = Result LayoutError Text} (ok (Paths.join (root ∷ dir ∷ name ∷ []))) (ok p)
        → Paths.join (root ∷ dir ∷ name ∷ []) ≡ p
    joined root dir name q = cc

take-append : (n : ℕ) (s t : Text) → length s ≡ n → take n (s ++ t) ≡ s
take-append zero [] t h = refl
take-append zero (c ∷ s) t h = absurd (omega arith)
take-append (suc n) [] t h = absurd (omega arith)
take-append (suc n) (c ∷ s) t h = ap (λ r. c ∷ r) (take-append n s t (omega arith))

-- Two files never share a path: where two resolved paths are equal, in whatever layouts, the
-- hashes were the same up to case and surrounding white space.
pub resolve_file_path-injective :
    (u : Casing) (raw raw' ext ext' : Text) (l l' : Layout) (p : Text)
    → resolve_file_path u raw ext l ≡ ok p
    → resolve_file_path u raw' ext' l' ≡ ok p
    → normalize_sha256_hex u raw ≡ normalize_sha256_hex u raw'
resolve_file_path-injective u raw raw' ext ext' l l' p e e' =
    let (h, x, eh, ex, last) = resolve_file_path-last u raw ext l p e in
    let (h', x', eh', ex', last') = resolve_file_path-last u raw' ext' l' p e' in
    let size = (normalize-IsHash u raw h eh).size in
    let size' = (normalize-IsHash u raw' h' eh').size in
    let same : h ≡ h' =
      sym (take-append 64 h x size)
      ∙ ap (take 64) (sym last ∙ last')
      ∙ take-append 64 h' x' size' in
    eh ∙ ap ok same ∙ sym eh'

-- A layout with plain roots that `NewSplitLayout` can have made.
pub record IsPlain (n : ℕ) (l : Layout) : Type 0 where
  pub roots : l.prefix_roots ≡ none
  pub length : l.prefix_length ≡ pos (suc n)
  pub fits : suc n ≤ max_prefix_length
  pub named : is_empty (trim_space l.root) ≡ false

-- The root below which a kind is stored.
abbrev pub kind_root : Bool → Layout → Text
kind_root true l = if is_empty (trim_space l.thumbnail_root) then l.root else l.thumbnail_root
kind_root false l = l.root

root-file :
    (u : Casing) (h : Text) (n : ℕ) (l : Layout)
    → IsPlain n l
    → IsHash h
    → root_for_hash u kind_file h l ≡ ok l.root
unfolding root_for_hash root_for_prefix has_prefix
root-file u h n l plain hash =
    rw
      (plain.length, prefix_ok u kind_file h n (inl refl) hash plain.fits, plain.roots, plain.named)

root-thumbnail :
    (u : Casing) (h : Text) (n : ℕ) (l : Layout)
    → IsPlain n l
    → IsHash h
    → root_for_hash u kind_thumbnail h l ≡ ok (kind_root true l)
unfolding root_for_hash root_for_prefix has_prefix
root-thumbnail u h n l plain hash =
    rw
      (
        plain.length,
        prefix_ok u kind_thumbnail h n (inr refl) hash plain.fits,
        plain.roots,
        plain.named,
      )
      (ground arith)

-- On a layout with plain roots every valid hash and extension has a path: the root, the hash prefix
-- in pieces of two behind the letter f, and the hash with its extension.
pub resolve_file_path_total :
    (u : Casing) (raw ext h x : Text) (n : ℕ) (l : Layout)
    → IsPlain n l
    → normalize_sha256_hex u raw ≡ ok h
    → normalize_extension u ext ≡ ok x
    → resolve_file_path u raw ext l
      ≡ ok (
          Paths.join
            (l.root ∷ Paths.join (relative_parts (kind_file ++ take (suc n) h)) ∷ (h ++ x) ∷ []))
unfolding resolve_file_path
resolve_file_path_total u raw ext h x n l plain eh ex =
    let hash = normalize-IsHash u raw h eh in
    rw (
      eh,
      ex,
      root-file u h n l plain hash,
      plain.length,
      relative_directory_ok u kind_file h n (inl refl) hash plain.fits,
    )

-- The same for thumbnails, which go below the thumbnail root if there is one.
pub resolve_thumbnail_path_total :
    (u : Casing) (raw h : Text) (n : ℕ) (l : Layout)
    → IsPlain n l
    → normalize_sha256_hex u raw ≡ ok h
    → resolve_thumbnail_path u raw l
      ≡ ok (
          Paths.join (
            kind_root true l
            ∷ Paths.join (relative_parts (kind_thumbnail ++ take (suc n) h))
            ∷ (h ++ codes ".thumbnail")
            ∷ []))
unfolding resolve_thumbnail_path
resolve_thumbnail_path_total u raw h n l plain eh =
    let hash = normalize-IsHash u raw h eh in
    rw (
      eh,
      root-thumbnail u h n l plain hash,
      plain.length,
      relative_directory_ok u kind_thumbnail h n (inr refl) hash plain.fits,
    )
