-- ===== src/Json.antt =====
-- JSON values as the HTTP library hands them over. The keys of an object are different.
use py_wallet_snapshot_servi.Prelude.{
  Bool, true, false, Option, none, some, Text, text_eq, if◌then◌else◌, ℤ,
}

mutual
  pub data Json : Type 0 where
    null : Json
    boolean : Bool → Json
    int : ℤ → Json
    float : Text → Json
    string : Text → Json
    array : Items → Json
    object : Fields → Json

  pub data Items : Type 0 where
    nil : Items
    item : Json → Items → Items

  pub data Fields : Type 0 where
    end : Fields
    field : Text → Json → Fields → Fields

abbrev pub get_field : Text → Fields → Option Json
get_field key end = none
get_field key (field k v fs) = if text_eq k key then some v else get_field key fs

-- `value.get(key)` where `value` is a dictionary, and none where it is not or has no such key.
abbrev pub get : Text → Json → Option Json
get key (object fs) = get_field key fs
get key _ = none

-- A value that is neither absent nor `None`.
abbrev pub not_null : Option Json → Option Json
not_null none = none
not_null (some null) = none
not_null (some v) = some v

abbrev pub is_object : Json → Bool
is_object (object _) = true
is_object _ = false
