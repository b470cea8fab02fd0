-- ===== src/Wire/Updates/Kinds.antt =====
-- The kind of an update file, and the decoder that accepts it.
use hydrus_go.Base.{ℕ, ◌≡◌, refl, ap, ◌∙◌, List, Bool-cases, inl, inr}
use hydrus_go.Base.Strings.{Casing}
use hydrus_go.Base.Results.{ok, err, >>=-eq-ok}
use hydrus_go.Base.Int.{ℤ, eqb_ℤ, eqb_ℤ_sound}
use hydrus_go.PtrSync.Mappings.{MappingsUpdate}
use hydrus_go.Wire.{Value, unsupported_type, Codec}
use hydrus_go.Wire.Numbers.{any_to_int64}
use hydrus_go.Wire.Body.{
  decode_tuple_bytes, definitions_update_type, content_update_type, classify_update_payload,
}
use hydrus_go.Wire.Updates.{
  DefinitionsUpdate, typed_payload, decode_definitions_update_payload,
  decode_mappings_update_payload,
}

-- A body that a decoder took is a tuple of the type that the decoder wants.
IsTyped : Codec → List ℕ → ℤ → Type 0
IsTyped c body wanted =
    (p : Value × Value) × (decode_tuple_bytes c body ≡ ok p) × (any_to_int64 c p.0 ≡ ok wanted)

typed_payload-type :
    (c : Codec) (wanted : ℤ) (p : Value × Value) (info : Value)
    → typed_payload c wanted p ≡ ok info
    → any_to_int64 c p.0 ≡ ok wanted
typed_payload-type c wanted p info h =
    let (type, e, r) = >>=-eq-ok (any_to_int64 c p.0) _ h in
    elim (Bool-cases (eqb_ℤ type wanted)) [
      | inl same ↦ e ∙ ap ok (eqb_ℤ_sound type wanted same)
      | inr other ↦ cc (rw other at r)
    ]

definitions-IsTyped :
    (c : Codec) (u : Casing) (body : List ℕ) (d : DefinitionsUpdate)
    → decode_definitions_update_payload c u body ≡ ok d
    → IsTyped c body definitions_update_type
unfolding decode_definitions_update_payload IsTyped
definitions-IsTyped c u body d h =
    let (p, e, r) = >>=-eq-ok (decode_tuple_bytes c body) _ h in
    let (info, t, _) = >>=-eq-ok (typed_payload c definitions_update_type p) _ r in
    (p, e, typed_payload-type c definitions_update_type p info t)

mappings-IsTyped :
    (c : Codec) (body : List ℕ) (m : MappingsUpdate)
    → decode_mappings_update_payload c body ≡ ok m
    → IsTyped c body content_update_type
unfolding decode_mappings_update_payload IsTyped
mappings-IsTyped c body m h =
    let (p, e, r) = >>=-eq-ok (decode_tuple_bytes c body) _ h in
    let (info, t, _) = >>=-eq-ok (typed_payload c content_update_type p) _ r in
    (p, e, typed_payload-type c content_update_type p info t)

-- What `decodeDefinitionsUpdatePayload` accepts is classified as a definitions file, and
-- `decodeMappingsUpdatePayload` refuses it for its type.
pub definitions-classify :
    (c : Codec) (u : Casing) (body : List ℕ) (d : DefinitionsUpdate)
    → decode_definitions_update_payload c u body ≡ ok d
    → (classify_update_payload c body ≡ ok 28)
      × (decode_mappings_update_payload c body ≡ err (unsupported_type definitions_update_type))
unfolding classify_update_payload decode_mappings_update_payload IsTyped
definitions-classify c u body d h =
    let (p, e, t) = definitions-IsTyped c u body d h in (rw (e, t) refl, rw (e, t) refl)

-- What `decodeMappingsUpdatePayload` accepts is classified as a content file, and
-- `decodeDefinitionsUpdatePayload` refuses it for its type.
pub mappings-classify :
    (c : Codec) (u : Casing) (body : List ℕ) (m : MappingsUpdate)
    → decode_mappings_update_payload c body ≡ ok m
    → (classify_update_payload c body ≡ ok 29)
      × (decode_definitions_update_payload c u body ≡ err (unsupported_type content_update_type))
unfolding classify_update_payload decode_definitions_update_payload IsTyped
mappings-classify c u body m h =
    let (p, e, t) = mappings-IsTyped c body m h in (rw (e, t) refl, rw (e, t) refl)
