-- ===== src/Wire/Requests/Upload.antt =====
-- What a repository reads in an upload of pending mappings, and which uploads are refused.
use hydrus_go.Base.{
  ℕ, ◌≡◌, refl, Bool, true, false, ◌&&◌, Option, none, some, List, [], ◌∷◌, map, if◌then◌else◌, All,
  Bool-cases, inl, inr,
}
use hydrus_go.Base.Strings.{Text, Casing, codes, to_lower, trim_space, text_eq, is_empty}
use hydrus_go.Base.Results.{ok, ◌>>=◌, >>=-eq-ok}
use hydrus_go.Base.Int.{pos, eqb_ℤ}
use hydrus_go.Wire.{Value, int, str, list, Items, end, item, WireError, from_option}
use hydrus_go.Wire.Numbers.{decode_hex}
use hydrus_go.Wire.Requests.{
  PendingGroup, group_hash, hash_values, some_hash, content_and_reason, group_content,
  group_contents, update_tuple, meta_hydrus, serialisable_dictionary, dictionary_pairs,
  client_to_server_update,
}

-- The group that is sent for a group.
abbrev pub normal_hash : Casing → Text → Text
normal_hash u hash_hex = to_lower u (trim_space hash_hex)

abbrev pub normal_group : Casing → PendingGroup → PendingGroup
normal_group u group = record {
  tag = trim_space group.tag;
  hashes = map (normal_hash u) group.hashes;
}

abbrev pub is_nil {ℓ} : {A : Type ℓ} → List A → Bool
is_nil [] = true
is_nil (x ∷ xs) = false

-- A hash that is not blank and consists of whole bytes in hex; a group with a tag and such hashes.
abbrev pub IsSendableHash : Casing → Text → Type 0
IsSendableHash u hash_hex =
    (is_empty (normal_hash u hash_hex) ≡ false)
    × ((bytes : List ℕ) × (decode_hex (normal_hash u hash_hex) ≡ some bytes))

abbrev pub IsSendable : Casing → PendingGroup → Type 0
IsSendable u group =
    (is_empty (trim_space group.tag) ≡ false)
    × (is_nil group.hashes ≡ false)
    × All (IsSendableHash u) group.hashes

-- The reading of a repository: every number, key and length is looked at.
abbrev pub with_hash : Option Text → Option (List Text) → Option (List Text)
with_hash (some hash) (some hashes) = some (hash ∷ hashes)
with_hash _ _ = none

abbrev pub read_text : Value → Option Text
read_text (str s) = some s
read_text _ = none

abbrev pub read_hashes : Items → Option (List Text)
read_hashes end = some []
read_hashes (item v vs) = with_hash (read_text v) (read_hashes vs)

abbrev pub tagged : Text → Option (List Text) → Option PendingGroup
tagged tag none = none
tagged tag (some hashes) = some (record { tag = tag; hashes = hashes })

abbrev pub read_group : Value → Option PendingGroup
read_group
      (list (
        item
          (list (
            item (int type) (
              item (int version) (
                item
                  (list (
                    item (int content) (item (list (item (str tag) (item (list hashes) end))) end)))
                  end))))
          (item (str reason) end))) =
    if eqb_ℤ type (pos 23) && eqb_ℤ version (pos 1) && eqb_ℤ content (pos 0) && is_empty reason
    then tagged tag (read_hashes hashes)
    else none
read_group _ = none

abbrev pub with_group :
    Option PendingGroup → Option (List PendingGroup) → Option (List PendingGroup)
with_group (some group) (some groups) = some (group ∷ groups)
with_group _ _ = none

abbrev pub read_groups : Items → Option (List PendingGroup)
read_groups end = some []
read_groups (item v vs) = with_group (read_group v) (read_groups vs)

abbrev pub read_update : Value → Option (List PendingGroup)
read_update
      (list (
        item (int type) (
          item
            (int version)
            (item (list (item (list (item (int action) (item (list contents) end))) end)) end)))) =
    if eqb_ℤ type (pos 40) && eqb_ℤ version (pos 1) && eqb_ℤ action (pos 2)
    then read_groups contents
    else none
read_update _ = none

abbrev pub read_upload : Value → Option (List PendingGroup)
read_upload
      (list (
        item (int type) (
          item (int version) (
            item
              (list (
                item
                  (list (
                    item
                      (list (item (int json) (item (str key) end)))
                      (item (list (item (int meta) (item update end))) end)))
                  end))
              end)))) =
    if eqb_ℤ type (pos 21)
      && eqb_ℤ version (pos 2)
      && eqb_ℤ json (pos 0)
      && eqb_ℤ meta (pos 2)
      && text_eq key (codes "client_to_server_update")
    then read_update update
    else none
read_upload _ = none

module _ (u : Casing) where
  hash_values-sendable :
      (hashes : List Text)
      → All (IsSendableHash u) hashes
      → (vs : Items) × (hash_values u hashes ≡ ok vs)
        × (read_hashes vs ≡ some (map (normal_hash u) hashes))
  unfolding hash_values
  hash_values-sendable [] h = (end, refl, refl)
  hash_values-sendable (hash_hex ∷ hashes) ((full, (bytes, hex)), hs) =
      let (vs, e, r) = hash_values-sendable hashes hs in
      (item (str (normal_hash u hash_hex)) vs, rw (full, hex, e) refl, rw r refl)

  some_hash-some :
      (tag : Text) (hashes : List Text) (vs : Items)
      → is_nil hashes ≡ false
      → read_hashes vs ≡ some (map (normal_hash u) hashes)
      → some_hash tag vs ≡ ok vs
  some_hash-some tag [] vs full r = cc
  some_hash-some tag (hash_hex ∷ hashes) end full r = cc
  some_hash-some tag (hash_hex ∷ hashes) (item v vs) full r = refl

  group_content-sendable :
      (group : PendingGroup)
      → IsSendable u group
      → (v : Value) × (group_content u (trim_space group.tag) group.hashes ≡ ok v)
        × (read_group v ≡ some (normal_group u group))
  group_content-sendable group (tag, full, hs) =
      let (vs, e, r) = hash_values-sendable group.hashes hs in
      (
        content_and_reason (trim_space group.tag) vs,
        rw (tag, e, some_hash-some (trim_space group.tag) group.hashes vs full r) refl,
        rw r refl,
      )

  group_contents-sendable :
      (groups : List PendingGroup)
      → All (IsSendable u) groups
      → (vs : Items) × (group_contents u groups ≡ ok vs)
        × (read_groups vs ≡ some (map (normal_group u) groups))
  unfolding group_contents
  group_contents-sendable [] h = (end, refl, refl)
  group_contents-sendable (group ∷ groups) (h, hs) =
      let (v, e, r) = group_content-sendable group h in
      let (vs, es, rs) = group_contents-sendable groups hs in
      (item v vs, rw (e, es) refl, rw (r, rs) refl)

-- Sendable groups, of which there is one at least, are encoded, and a repository reads in the upload
-- all of them in their order, with the tags trimmed and the hashes trimmed and in lower case.
pub client_to_server_update-read :
    (u : Casing) (group : PendingGroup) (groups : List PendingGroup)
    → All (IsSendable u) (group ∷ groups)
    → (v : Value) × (client_to_server_update u (group ∷ groups) ≡ ok v)
      × (read_upload v ≡ some (map (normal_group u) (group ∷ groups)))
unfolding client_to_server_update dictionary_pairs text_eq
client_to_server_update-read u group groups h =
    let (vs, e, r) = group_contents-sendable u (group ∷ groups) h in
    (
      serialisable_dictionary
          ((codes "client_to_server_update", meta_hydrus (update_tuple vs)) ∷ []),
      rw e refl,
      r,
    )

module _ (u : Casing) where
  group_hash-sent :
      (hash_hex hash : Text)
      → group_hash (normal_hash u hash_hex) ≡ ok hash
      → IsSendableHash u hash_hex
  group_hash-sent hash_hex hash h = elim (Bool-cases (is_empty (normal_hash u hash_hex))) [
    | inl blank ↦ cc (rw blank at h)
    | inr full ↦ (full, whole (decode_hex (normal_hash u hash_hex)) refl (rw full at h))
  ]
    where
      whole :
          (o : Option (List ℕ))
          → decode_hex (normal_hash u hash_hex) ≡ o
          → (from_option (WireError.bad_hex "pending mappings hash") o >>= λ bytes.
              ok (normal_hash u hash_hex))
            ≡ ok hash
          → (bytes : List ℕ) × (decode_hex (normal_hash u hash_hex) ≡ some bytes)
      whole none e h = cc
      whole (some bytes) e h = (bytes, e)

  hash_values-sent :
      (hashes : List Text) (vs : Items)
      → hash_values u hashes ≡ ok vs
      → All (IsSendableHash u) hashes
  unfolding hash_values
  hash_values-sent [] vs h = tt
  hash_values-sent (hash_hex ∷ hashes) vs h =
      let (hash, e, r) = >>=-eq-ok (group_hash (normal_hash u hash_hex)) _ h in
      let (rest, es, _) = >>=-eq-ok (hash_values u hashes) _ r in
      (group_hash-sent hash_hex hash e, hash_values-sent hashes rest es)

  group_content-sent :
      (group : PendingGroup) (v : Value)
      → group_content u (trim_space group.tag) group.hashes ≡ ok v
      → IsSendable u group
  unfolding hash_values
  group_content-sent group v h = elim (Bool-cases (is_empty (trim_space group.tag))) [
    | inl blank ↦ cc (rw blank at h)
    | inr tag ↦
        let (ws, r, _) =
          >>=-eq-ok (hash_values u group.hashes >>= some_hash (trim_space group.tag)) _
            (rw tag at h) in
        let (vs, e, s) = >>=-eq-ok (hash_values u group.hashes) _ r in
        (tag, full group.hashes vs e s, hash_values-sent group.hashes vs e)
  ]
    where
      full :
          (hashes : List Text) (vs : Items) {ws : Items}
          → hash_values u hashes ≡ ok vs
          → some_hash (trim_space group.tag) vs ≡ ok ws
          → is_nil hashes ≡ false
      full [] end e s = cc
      full [] (item v vs) e s = cc
      full (hash_hex ∷ hashes) vs e s = refl

  group_contents-sent :
      (groups : List PendingGroup) (vs : Items)
      → group_contents u groups ≡ ok vs
      → All (IsSendable u) groups
  unfolding group_contents
  group_contents-sent [] vs h = tt
  group_contents-sent (group ∷ groups) vs h =
      let (v, e, r) = >>=-eq-ok (group_content u (trim_space group.tag) group.hashes) _ h in
      let (rest, es, _) = >>=-eq-ok (group_contents u groups) _ r in
      (group_content-sent group v e, group_contents-sent groups rest es)

-- Only sendable groups are encoded: an upload without a group, a blank tag, a group without a hash,
-- a blank hash or one that is not hex is refused.
pub client_to_server_update-sent :
    (u : Casing) (groups : List PendingGroup) (v : Value)
    → client_to_server_update u groups ≡ ok v
    → All (IsSendable u) groups × (is_nil groups ≡ false)
unfolding client_to_server_update
client_to_server_update-sent u [] v h = cc
client_to_server_update-sent u (group ∷ groups) v h =
    let (vs, e, _) = >>=-eq-ok (group_contents u (group ∷ groups)) _ h in
    (group_contents-sent u (group ∷ groups) vs e, refl)
