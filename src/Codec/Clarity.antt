-- ===== src/Codec/Clarity.antt =====
-- src/codec/clarity.rs: the values of the Clarity language.
use Prim.Native.Nat.Ordering.{lt, eq, gt}
use stacks_dex_pool.Prelude.{ℕ, suc, Bool, Option, none, some, List, [], ◌∷◌, if◌then◌else◌}
use stacks_dex_pool.Prelude.Int.{ℤ}
use stacks_dex_pool.Prelude.Text.{Text, text_eq, text_compare}
use stacks_dex_pool.Prelude.Outcome.{Result, ok, err}
use stacks_dex_pool.Pool.Principal.{Principal}

-- `Values` is the `Vec` of a list, `Fields` the `BTreeMap<String, _>` of a tuple.
mutual
  pub data ClarityValue : Type 0 where
    int : ℤ → ClarityValue
    uint : ℕ → ClarityValue
    buffer : List ℕ → ClarityValue
    bool : Bool → ClarityValue
    principal : Principal → ClarityValue
    response_ok : ClarityValue → ClarityValue
    response_err : ClarityValue → ClarityValue
    optional_none : ClarityValue
    optional_some : ClarityValue → ClarityValue
    list : Values → ClarityValue
    tuple : Fields → ClarityValue
    string_ascii : Text → ClarityValue
    string_utf8 : Text → ClarityValue

  pub data Values : Type 0 where
    no_values : Values
    value : ClarityValue → Values → Values

  pub data Fields : Type 0 where
    no_fields : Fields
    field : Text → ClarityValue → Fields → Fields

-- `BTreeMap::get` by name.
unfoldable pub lookup : Text → Fields → Option ClarityValue
lookup key no_fields = none
lookup key (field name v rest) = if text_eq key name then some v else lookup key rest

-- `Vec::len` and `BTreeMap::len`.
unfoldable pub count_values : Values → ℕ
count_values no_values = 0
count_values (value _ vs) = suc (count_values vs)

unfoldable pub count_fields : Fields → ℕ
count_fields no_fields = 0
count_fields (field _ _ fs) = suc (count_fields fs)

-- A list as the language's sequences, and back.
unfoldable pub list_items : Values → List ClarityValue
list_items no_values = []
list_items (value v vs) = v ∷ list_items vs

unfoldable pub as_values : List ClarityValue → Values
as_values [] = no_values
as_values (v ∷ vs) = value v (as_values vs)

-- `BTreeMap::insert`.
unfoldable pub insert : Text → ClarityValue → Fields → Fields
insert key v no_fields = field key v no_fields
insert key v (field name w rest) =
    let later = insert key v rest in
    elim (text_compare key name) [
      | lt ↦ field key v (field name w rest)
      | eq ↦ field key v rest
      | gt ↦ field name w later
    ]

-- The conversions, which fail by an error that shows the value.
pub data ShapeError : Type 0 where
  was_response_err expected_response expected_tuple : ClarityValue → ShapeError
  missing_key : Text → ShapeError
  expected_uint expected_int expected_bool expected_principal : ClarityValue → ShapeError

unfoldable pub unwrap_ok : ClarityValue → Result ShapeError ClarityValue
unwrap_ok (response_ok v) = ok v
unwrap_ok (response_err e) = err (was_response_err e)
unwrap_ok other = err (expected_response other)

abbrev found_key : Text → Option ClarityValue → Result ShapeError ClarityValue
found_key key none = err (missing_key key)
found_key key (some v) = ok v

-- `ClarityValue::field`.
unfoldable pub get_field : ClarityValue → Text → Result ShapeError ClarityValue
get_field (tuple fields) key = found_key key (lookup key fields)
get_field other key = err (expected_tuple other)

unfoldable pub as_uint : ClarityValue → Result ShapeError ℕ
as_uint (uint n) = ok n
as_uint other = err (expected_uint other)

unfoldable pub as_int : ClarityValue → Result ShapeError ℤ
as_int (int n) = ok n
as_int other = err (expected_int other)

unfoldable pub as_bool : ClarityValue → Result ShapeError Bool
as_bool (bool b) = ok b
as_bool other = err (expected_bool other)

unfoldable pub as_principal : ClarityValue → Result ShapeError Principal
as_principal (principal p) = ok p
as_principal other = err (expected_principal other)
