-- ===== src/Json.antt =====
-- JSON values, and how encoding/json reads the fields of an object into those of a struct. The text of
-- a value is the standard library's.
pub mod Scan
use dock.Base.{
  ℕ, ◌^◌, ◌+◌, Bool, true, false, ◌&&◌, List, [], ◌∷◌, Option, none, some, Bytes, Bytes_eq, Map,
  codes, lower, insert, ◌==◌, nat_eq, ltb, leb, if◌then◌else◌,
}
use dock.Base.Decimal.{Int64}

-- `integer` is a number that is written with no fraction and no exponent, with its sign (true for a
-- minus); `fraction` is any other.
mutual
  pub data Json : Type 0 where
    null : Json
    boolean : Bool → Json
    integer : Bool → ℕ → Json
    fraction : Json
    str : Bytes → Json
    arr : Items → Json
    obj : Fields → Json

  pub data Items : Type 0 where
    nil : Items
    cons : Json → Items → Items

  pub data Fields : Type 0 where
    end : Fields
    field : Bytes → Json → Fields → Fields

infixl 5 ◌>>=◌
abbrev pub ◌>>=◌ {ℓ κ} : {A : Type ℓ} {B : Type κ} → Option A → (A → Option B) → Option B
none >>= f = none
some a >>= f = f a

-- Keys are matched in any case, the long s and the Kelvin sign included.
unfoldable pub fold_key : Bytes → Bytes
unfolding lower
fold_key [] = []
fold_key (a ∷ []) = lower a ∷ []
fold_key (a ∷ b ∷ []) = if nat_eq a 0xC5 && nat_eq b 0xBF then b's' ∷ [] else lower a ∷ lower b ∷ []
fold_key (a ∷ b ∷ c ∷ s) =
    let plain = lower a ∷ fold_key (b ∷ c ∷ s) in
    let long_s = b's' ∷ fold_key (c ∷ s) in
    let kelvin = b'k' ∷ fold_key s in
    if nat_eq a 0xC5 && nat_eq b 0xBF
    then long_s
    else if nat_eq a 0xE2 && nat_eq b 0x84 && nat_eq c 0xAA
    then kelvin
    else plain

-- Every field of the object whose key matches is read in its turn, so the last one counts; none where
-- one has a value of the wrong kind.
unfoldable pub scan_fields {ℓ} :
    {A : Type ℓ} → (A → Json → Option A) → Bytes → A → Fields → Option A
unfolding fold_key
scan_fields read key acc end = some acc
scan_fields read key acc (field k v fs) =
    elim (if fold_key k == key then read acc v else some acc) [
      | none ↦ none
      | some acc' ↦ scan_fields read key acc' fs
    ]

-- A `string`: null leaves it as it is.
unfoldable pub read_string : Bytes → Json → Option Bytes
read_string acc null = some acc
read_string acc (str s) = some s
read_string acc _ = none

-- An `int` or `int64`
unfoldable pub read_int : Int64 → Json → Option Int64
read_int acc null = some acc
read_int acc (integer true n) = if leb n (2 ^ 63) then some (true, n) else none
read_int acc (integer false n) = if ltb n (2 ^ 63) then some (false, n) else none
read_int acc _ = none

read_items : Items → Option (List Bytes)
unfolding read_string
read_items nil = some []
read_items (cons v items) = do s ← read_string [] v; rest ← read_items items; some (s ∷ rest)

-- A `[]string`: null makes it empty.
unfoldable pub read_strings : List Bytes → Json → Option (List Bytes)
unfolding read_items
read_strings acc null = some []
read_strings acc (arr items) = read_items items
read_strings acc _ = none

read_entries : Map Bytes Bytes → Fields → Option (Map Bytes Bytes)
unfolding read_string
read_entries acc end = some acc
read_entries acc (field k v fs) = elim (read_string [] v) [
  | none ↦ none
  | some s ↦ read_entries (insert k s acc) fs
]

-- A `map[string]string`: null makes it empty, and an object's entries are added.
unfoldable pub read_map : Map Bytes Bytes → Json → Option (Map Bytes Bytes)
unfolding read_entries
read_map acc null = some []
read_map acc (obj fs) = read_entries acc fs
read_map acc _ = none

-- What json.Marshal makes of a list and of a map. It sorts a map's entries, whose order no reader of a
-- map can see.
unfoldable pub strings_json : List Bytes → Items
strings_json [] = nil
strings_json (s ∷ l) = cons (str s) (strings_json l)

unfoldable pub map_json : Map Bytes Bytes → Fields
map_json [] = end
map_json ((k, v) ∷ m) = field k (str v) (map_json m)
