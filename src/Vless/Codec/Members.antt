-- ===== src/Vless/Codec/Members.antt =====
-- src/protocol/vless/codec.rs: adding and removing of clients, by how often a UUID is in the list.
use xray_lite.Prelude.{
  ℕ, suc, ◌+◌, ◌-◌, ◌≡◌, refl, true, false, List, [], ◌∷◌, ◌++◌, if◌then◌else◌, Option, none, some,
  arith, ltb, Bool-cases, inl, inr,
}
use xray_lite.Prelude.Bytes.{Bytes, bytes_eq, bytes_eq_iff}
use xray_lite.Vless.Request.{contains}
use xray_lite.Vless.Codec.{Codec, validate_uuid, add_uuid, position, remove_at, remove_uuid}

abbrev pub count : Bytes → List Bytes → ℕ
count uuid [] = 0
count uuid (u ∷ us) = if bytes_eq u uuid then suc (count uuid us) else count uuid us

pub contains-count : (us : List Bytes) (uuid : Bytes) → contains us uuid ≡ ltb 0 (count uuid us)
unfolding contains
contains-count [] uuid = ground arith
contains-count (u ∷ us) uuid = ground (arith, contains-count us uuid)

count-append :
    (uuid : Bytes) (us vs : List Bytes) → count uuid (us ++ vs) ≡ count uuid us + count uuid vs
count-append uuid [] vs = omega arith
count-append uuid (u ∷ us) vs = ground (arith, count-append uuid us vs)

-- `add_uuid` keeps every UUID that is there, and brings the new one in once if it was missing.
pub count-add_uuid :
    (c : Codec) (uuid v : Bytes)
    → count v (add_uuid c uuid).allowed_uuids ≡ (
        if bytes_eq uuid v
        then (if contains c.allowed_uuids uuid then count v c.allowed_uuids else 1)
        else count v c.allowed_uuids)
unfolding add_uuid
count-add_uuid c uuid v = ground (
  arith,
  contains-count c.allowed_uuids uuid,
  bytes_eq_iff uuid v,
  count-append v c.allowed_uuids (uuid ∷ []),
)

contains-position :
    (us : List Bytes) (uuid : Bytes)
    → contains us uuid ≡ elim (position us uuid) [ none ↦ false | some pos ↦ true ]
unfolding contains position
contains-position [] uuid = refl
contains-position (u ∷ us) uuid = ground (arith, contains-position us uuid)

abbrev removed : List Bytes → Option ℕ → List Bytes
removed us none = us
removed us (some pos) = remove_at us pos

count-removed :
    (us : List Bytes) (uuid v : Bytes)
    → count v (removed us (position us uuid))
      ≡ (if bytes_eq uuid v then count v us - 1 else count v us)
unfolding position remove_at
count-removed [] uuid v = ground arith
count-removed (u ∷ us) uuid v = elim (Bool-cases (bytes_eq u uuid)) [
  | inl same ↦ ground (arith, (bytes_eq_iff u uuid).0 same)
  | inr other ↦ ground (
    arith,
    count-removed us uuid v,
    bytes_eq_iff uuid v,
    bytes_eq_iff u v,
    bytes_eq_iff u uuid,
    contains-position us uuid,
    contains-count us uuid,
  )
]

-- `remove_uuid` answers whether the UUID was there, takes out one occurrence of it, and leaves
-- every other UUID as often as it was.
pub remove_uuid_lem :
    (c : Codec) (uuid v : Bytes)
    → ((remove_uuid c uuid).1 ≡ validate_uuid c uuid)
      × (count v (remove_uuid c uuid).0.allowed_uuids
          ≡ (if bytes_eq uuid v then count v c.allowed_uuids - 1 else count v c.allowed_uuids))
unfolding remove_uuid validate_uuid
remove_uuid_lem c uuid v =
    ground (arith, count-removed c.allowed_uuids uuid v, contains-position c.allowed_uuids uuid)
