-- ===== src/Wire/Json.antt =====
-- What `json.loads` makes of a message: the values of cluster.py's decoder.
use constella.Prelude.{
  ◌-◌, ◌%◌, ◌==◌, Bool, true, false, not, Option, none, some, List, [], ◌∷◌, Text, text_eq, truthy,
  if◌then◌else◌,
}
use constella.Prelude.Dicts.{Dict}
use constella.Telemetry.Rules.{
  Number, Value, missing, number, infinite, not_a_number, other, million, whole,
}

mutual
  pub data Json : Type 0 where
    null : Json
    bool : Bool → Json
    num : Number → Json
    inf : Bool → Json
    nan : Json
    str : Text → Json
    list : Items → Json
    object : Fields → Json

  pub data Items : Type 0 where
    end : Items
    item : Json → Items → Items

  -- A dict, in the order of its keys.
  pub data Fields : Type 0 where
    blank : Fields
    entry : Text → Json → Fields → Fields

unfoldable pub list_of : Items → List Json
list_of end = []
list_of (item j js) = j ∷ list_of js

unfoldable pub field : Text → Fields → Option Json
field k blank = none
field k (entry j v d) = let rest = field k d in if text_eq j k then some v else rest

-- `data[k] = v`
unfoldable pub set_field : Text → Json → Fields → Fields
set_field k v blank = entry k v blank
set_field k v (entry j w d) =
    let rest = set_field k v d in if text_eq j k then entry j v d else entry j w rest

abbrev pub or_null : Option Json → Json
or_null none = null
or_null (some v) = v

-- `data.get(k)`
abbrev pub get : Text → Fields → Json
get k d = or_null (field k d)

abbrev pub has : Text → Fields → Bool
has k d = elim (field k d) [ none ↦ false | some v ↦ true ]

abbrev pub no_items : Items → Bool
no_items end = true
no_items (item j js) = false

abbrev pub no_fields : Fields → Bool
no_fields blank = true
no_fields (entry k v d) = false

-- `bool(j)`
abbrev pub is_truthy : Json → Bool
is_truthy null = false
is_truthy (bool b) = b
is_truthy (num n) = not (n.millionths == 0)
is_truthy (inf negative) = true
is_truthy nan = true
is_truthy (str t) = truthy t
is_truthy (list js) = not (no_items js)
is_truthy (object d) = not (no_fields d)

-- What the numeric rules see of a value.
abbrev pub value_of : Json → Value
value_of null = missing
value_of (bool b) = other
value_of (num n) = number n
value_of (inf negative) = infinite negative
value_of nan = not_a_number
value_of (str t) = other
value_of (list js) = other
value_of (object d) = other

unfoldable pub values_of : Fields → Dict Value
values_of blank = []
values_of (entry k v d) = (k, value_of v) ∷ values_of d

-- `int(x)`: the part behind the point is cut off.
abbrev pub truncated : Number → Number
truncated n = record n { millionths = n.millionths - n.millionths % million }

-- `int(j or 0)` and `float(j or 0.0)`, of what the rules let through: a number, None or nothing.
abbrev pub float_or_zero : Json → Number
float_or_zero null = whole 0
float_or_zero (bool b) = whole 0
float_or_zero (num n) = if n.millionths == 0 then whole 0 else n
float_or_zero (inf negative) = whole 0
float_or_zero nan = whole 0
float_or_zero (str t) = whole 0
float_or_zero (list js) = whole 0
float_or_zero (object d) = whole 0

abbrev pub int_or_zero : Json → Number
int_or_zero j = truncated (float_or_zero j)

-- `str(j)`; `print` is `str` of a value that is not a text.
abbrev pub str_of : (Json → Text) → Json → Text
str_of print null = print null
str_of print (bool b) = print (bool b)
str_of print (num n) = print (num n)
str_of print (inf negative) = print (inf negative)
str_of print nan = print nan
str_of print (str t) = t
str_of print (list js) = print (list js)
str_of print (object d) = print (object d)

-- `str(j or t)`
abbrev pub str_or : (Json → Text) → Json → Text → Text
str_or print j t = if is_truthy j then str_of print j else t

abbrev pub is_null : Json → Bool
is_null null = true
is_null (bool b) = false
is_null (num n) = false
is_null (inf negative) = false
is_null nan = false
is_null (str t) = false
is_null (list js) = false
is_null (object d) = false
