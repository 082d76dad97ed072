-- ===== src/Ai/Json.antt =====
-- JSON values as Python holds them (`JsonValue` of src/pi_agent/ai/types.py). A float is carried as
-- its 64-bit pattern and never computed with.
use Prim.Native.String.{len}
use pi_agent_python.Base.{
  ℕ, zero, String, Bool, true, false, not, ◌||◌, Option, none, some, if◌then◌else◌, ◌==◌, beq,
  string_eq,
}

pub data ℤ : Type 0 where
  pos : ℕ → ℤ
  negsuc : ℕ → ℤ

mutual
  pub data JsonValue : Type 0 where
    null : JsonValue
    bool : Bool → JsonValue
    int : ℤ → JsonValue
    float : ℕ → JsonValue
    str : String → JsonValue
    array : Items → JsonValue
    object : Fields → JsonValue

  pub data Items : Type 0 where
    nil : Items
    cons : JsonValue → Items → Items

  pub data Fields : Type 0 where
    end : Fields
    field : String → JsonValue → Fields → Fields

-- `value.get(key)`
unfoldable pub get_field : String → Fields → Option JsonValue
get_field k end = none
get_field k (field j v fs) = if beq j k then some v else get_field k fs

-- `bool(value)`
abbrev pub truthy : JsonValue → Bool
truthy null = false
truthy (bool b) = b
truthy (int (pos zero)) = false
truthy (int _) = true
truthy (float x) = not (x == 0 || x == 0x8000000000000000)
truthy (str s) = not (len s == 0)
truthy (array nil) = false
truthy (array (cons _ _)) = true
truthy (object end) = false
truthy (object (field _ _ _)) = true
