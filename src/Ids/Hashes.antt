-- ===== src/Ids/Hashes.antt =====
-- internal/db/hydrusdb/metadata_create_ids.go: the ids of hashes. A hash stands for the bytes that it
-- spells, which are equal exactly if the normal forms are.
pub mod Forms
pub mod Resolved
use hydrus_go.Base.{ℕ, Bool, true, false, Option, none, some, List, [], ◌∷◌, ◌++◌, if◌then◌else◌}
use hydrus_go.Base.Strings.{Text, Casing, text_eq}
use hydrus_go.Base.Results.{Result, ok, err, ◌>>=◌}
use hydrus_go.Base.Maps
use hydrus_go.Base.Maps.{Map}
use hydrus_go.PtrSync.{SyncError}
use hydrus_go.PtrSync.Tables.{exists_row}
use hydrus_go.PtrSync.Processing.{normalize_prepared_hash}
use hydrus_go.Ids.Table.{Row, RowIds, IdError, invalid_hash, ensure_key}

abbrev pub normalized : Text → Result SyncError Text → Result IdError Text
normalized hash (err e) = err (invalid_hash hash)
normalized hash (ok text) = ok text

abbrev pub normalize : Casing → Text → Result IdError Text
normalize u hash = normalized hash (normalize_prepared_hash u hash)

abbrev pub add_new : Text → List Text → List Text
add_new hash seen = if exists_row (text_eq hash) seen then seen else seen ++ (hash ∷ [])

-- The normal forms, each once.
unfoldable pub normalize_hashes : Casing → List Text → List Text → Result IdError (List Text)
normalize_hashes u [] seen = ok seen
normalize_hashes u (hash ∷ hashes) seen =
    normalize u hash >>= λ text. normalize_hashes u hashes (add_new text seen)

abbrev pub Resolution : Type 0
Resolution = Map ℕ × List (Row Text)

-- The id of each, created where there is none.
unfoldable pub resolve_all : RowIds → List Text → Resolution → Result IdError Resolution
resolve_all r [] p = ok p
resolve_all r (hash ∷ hashes) (resolved, rows) = ensure_key text_eq r hash rows >>= λ q.
    resolve_all r hashes (Maps.insert hash q.0 resolved, q.1)

-- `ensureHashIDsTx`
unfoldable pub ensure_hash_ids_tx :
    RowIds → Casing → List Text → List (Row Text) → Result IdError Resolution
ensure_hash_ids_tx r u hashes rows =
    normalize_hashes u hashes [] >>= λ normal. resolve_all r normal (Maps.empty, rows)

abbrev pub commit_hashes :
    List (Row Text) → Result IdError Resolution → Result IdError (Map ℕ) × List (Row Text)
commit_hashes before (err e) = (err e, before)
commit_hashes before (ok (resolved, after)) = (ok resolved, after)

-- `ensureHashIDs` on a writable bundle
unfoldable pub ensure_hash_ids :
    RowIds → Casing → List Text → List (Row Text) → Result IdError (Map ℕ) × List (Row Text)
ensure_hash_ids r u hashes rows = commit_hashes rows (ensure_hash_ids_tx r u hashes rows)
