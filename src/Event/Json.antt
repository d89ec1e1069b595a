-- ===== src/Event/Json.antt =====
-- Values of a JSON document, as `model_dump(mode="json")` gives them. An object is a `dict` with
-- text keys in the order of insertion. There are no floats.
use python_event_sourcery.Prelude.{
  ℕ, String, Option, none, some, Bool, if◌then◌else◌, ◌==◌, string_key,
}

pub data ℤ : Type 0 where
  pos : ℕ → ℤ
  negsuc : ℕ → ℤ

mutual
  pub data Json : Type 0 where
    null : Json
    boolean : Bool → Json
    number : ℤ → Json
    text : String → Json
    array : Items → Json
    object : Fields → Json

  pub data Items : Type 0 where
    nil : Items
    cons : Json → Items → Items

  pub data Fields : Type 0 where
    end : Fields
    field : String → Json → Fields → Fields

-- `d[k]`, if it is there
unfoldable pub get_field : String → Fields → Option Json
get_field k end = none
get_field k (field j v rest) = if j == k then some v else get_field k rest

-- `d[k] = v`
unfoldable pub set_field : String → Json → Fields → Fields
set_field k v end = field k v end
set_field k v (field j w rest) =
    let after = set_field k v rest in if j == k then field j v rest else field j w after
