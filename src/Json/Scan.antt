-- ===== src/Json/Scan.antt =====
-- Reading back what json.Marshal writes.
use dock.Base.{
  ◌≡◌, refl, subst, ◌∙◌, List, [], ◌∷◌, Option, none, some, arith, Bytes, Bytes_eq, bytes_eq_iff,
  Map, lookup, insert, lookup-insert, IsMap, Fresh, beq_cases, inl, inr,
}
use dock.Json.{obj, arr, read_items, read_strings, read_entries, read_map, strings_json, map_json}

read_items-json : (l : List Bytes) → read_items (strings_json l) ≡ some l
unfolding read_items strings_json
read_items-json [] = refl
read_items-json (s ∷ l) = rw (read_items-json l)

pub read_strings-json : (acc l : List Bytes) → read_strings acc (arr (strings_json l)) ≡ some l
unfolding read_strings
read_strings-json acc l = read_items-json l

-- The entries of an object, added to a map
added : Map Bytes Bytes → Map Bytes Bytes → Map Bytes Bytes
added acc [] = acc
added acc ((k, v) ∷ m) = added (insert k v acc) m

read_entries-json : (m acc : Map Bytes Bytes) → read_entries acc (map_json m) ≡ some (added acc m)
unfolding read_entries map_json added
read_entries-json [] acc = refl
read_entries-json ((k, v) ∷ m) acc = read_entries-json m (insert k v acc)

lookup-Fresh : (k : Bytes) (m : Map Bytes Bytes) → Fresh k m → lookup k m ≡ none
unfolding lookup
lookup-Fresh k [] f = refl
lookup-Fresh k ((j, v) ∷ m) (n, f) = ground (arith, bytes_eq_iff j k, lookup-Fresh k m f)

lookup-added :
    (k : Bytes) (m acc : Map Bytes Bytes)
    → IsMap m
    → lookup k (added acc m) ≡ elim (lookup k m) [ some v ↦ some v | none ↦ lookup k acc ]
unfolding added lookup
lookup-added k [] acc w = refl
lookup-added k ((j, v) ∷ m) acc (f, w) = elim (beq_cases j k) [
  | inl (p, t) ↦ ground (
    arith,
    t,
    lookup-added k m (insert j v acc) w,
    lookup-insert j k v acc,
    lookup-Fresh k m (subst (λ i. Fresh i m) p f),
  )
  | inr (n, t) ↦ ground (arith, t, lookup-added k m (insert j v acc) w, lookup-insert j k v acc)
]

nothing_more : (o : Option Bytes) → elim o [ some v ↦ some v | none ↦ none ] ≡ o
nothing_more none = refl
nothing_more (some v) = refl

-- A map comes back with the same entries.
pub read_map-json :
    (m : Map Bytes Bytes)
    → IsMap m
    → (m' : Map Bytes Bytes) × (read_map [] (obj (map_json m)) ≡ some m')
      × ((k : Bytes) → lookup k m' ≡ lookup k m)
unfolding read_map lookup
read_map-json m w =
    (added [] m, read_entries-json m [], λ k. lookup-added k m [] w ∙ nothing_more (lookup k m))
