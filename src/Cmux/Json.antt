-- ===== src/Cmux/Json.antt =====
-- JSON values as Python holds them, and what the cmux plugin takes from Python's json and base64.
-- The keys of an object are distinct, as in a dict. A float is its `repr`.
use yatagarasu.Prelude.{
  ℕ, String, Bool, true, false, Option, none, some, List, ◌==◌, string_eq, option_eq, bool_eq,
  if◌then◌else◌,
}
use yatagarasu.Prelude.Int.{ℤ, pos, int_eq}

mutual
  pub data Value : Type 0 where
    null : Value
    boolean : Bool → Value
    integer : ℤ → Value
    float : String → Value
    text : String → Value
    list : Values → Value
    object : Fields → Value

  pub data Values : Type 0 where
    end : Values
    item : Value → Values → Values

  pub data Fields : Type 0 where
    no_fields : Fields
    field : String → Value → Fields → Fields

-- `frame.get(key)`: null stands for None, which a missing key gives too
unfoldable pub get : String → Fields → Value
get key no_fields = null
get key (field k v rest) = if k == key then v else get key rest

-- `key in payload`
unfoldable pub has_key : String → Fields → Bool
has_key key no_fields = false
has_key key (field k v rest) = if k == key then true else has_key key rest

abbrev pub as_text : Value → Option String
as_text (text s) = some s
as_text _ = none

-- `isinstance(value, int) and not isinstance(value, bool)`
abbrev pub as_integer : Value → Option ℤ
as_integer (integer n) = some n
as_integer _ = none

abbrev pub as_object : Value → Option Fields
as_object (object fields) = some fields
as_object _ = none

-- `value == n` in Python, where True equals 1 and False equals 0
abbrev pub equals_integer : (String → Option ℤ) → ℤ → Value → Bool
equals_integer integral n (integer m) = m == n
equals_integer integral n (boolean true) = n == pos 1
equals_integer integral n (boolean false) = n == pos 0
equals_integer integral n (float digits) = integral digits == some n
equals_integer integral n _ = false

abbrev pub is_text : String → Value → Bool
is_text s (text t) = t == s
is_text s _ = false

pub record Wire : Type 0 where
  -- json.dumps(value, separators=(",", ":"), sort_keys=True)
  pub dumps : Value → String
  -- json.loads, none for a JSONDecodeError
  pub loads : String → Option Value
  -- the int that a float is equal to, if there is one
  pub integral : String → Option ℤ
  -- base64 and bytes; none for a Base64Error
  pub urlsafe_b64encode : List ℕ → String
  pub urlsafe_b64decode : String → Option (List ℕ)
  pub hex : List ℕ → String
  pub fromhex : String → List ℕ
  -- str.encode
  pub encode_utf8 : String → List ℕ
  -- json.loads of bytes, none for a JSONDecodeError or a UnicodeDecodeError
  pub loads_bytes : List ℕ → Option Value
