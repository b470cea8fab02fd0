-- ===== src/Ids.antt =====
-- internal/db/hydrusdb/tag_ids.go and metadata_create_ids.go: the ids of tags and hashes in the
-- master database.
pub mod Table
pub mod Tags
pub mod Hashes
mod Examples
