-- ===== src/Prelude/Values.antt =====
-- The values of a JSON payload: what the source's `dict[str, Any]` holds. A Boolean is a number to
-- Python's comparisons; floats and dates do not occur in a payload.
use Prim.Native.Nat.{ℕ}
use Prim.Native.String.{String}
use mathlib.Core.Bool.{Bool, true, false}
use mathlib.Core.Option.{Option, none, some}
use astra_licensing_graph.Prelude.Tests.{if◌then◌else◌, ◌==◌}
use astra_licensing_graph.Prelude.Texts.{text_true, str_eq}

-- `negsuc n` is -(n + 1).
pub data ℤ : Type 0 where
  pos : ℕ → ℤ
  negsuc : ℕ → ℤ

mutual
  pub data Value : Type 0 where
    null : Value
    boolean : Bool → Value
    number : ℤ → Value
    text : String → Value
    array : Items → Value
    object : Fields → Value

  pub data Items : Type 0 where
    nil : Items
    cons : Value → Items → Items

  pub data Fields : Type 0 where
    end : Fields
    field : String → Value → Fields → Fields

-- `bool(v)`
abbrev pub value_true : Value → Bool
value_true null = false
value_true (boolean b) = b
value_true (number (pos n)) = if n == 0 then false else true
value_true (number (negsuc n)) = true
value_true (text s) = text_true s
value_true (array nil) = false
value_true (array (cons v vs)) = true
value_true (object end) = false
value_true (object (field k v fs)) = true

-- `payload.get(key)`
abbrev pub get_field : String → Fields → Option Value
get_field k end = none
get_field k (field j v fs) = let rest = get_field k fs in if str_eq j k then some v else rest

-- `bool(payload.get(key))`
abbrev pub has_field : String → Fields → Bool
has_field k fs = elim (get_field k fs) [ none ↦ false | some v ↦ value_true v ]

-- `payload[key] = v`
abbrev pub set_field : String → Value → Fields → Fields
set_field k v end = field k v end
set_field k v (field j w fs) =
    let rest = set_field k v fs in if str_eq j k then field j v fs else field j w rest
