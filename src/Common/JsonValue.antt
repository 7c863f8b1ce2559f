-- ===== src/Common/JsonValue.antt =====
-- Decoded JSON values, as `json.loads` returns them. A number with a fraction or an exponent is
-- kept as its text: no code here computes with it.
use Prim.Native.String.{String}
use mathlib.Core.Option.{Option, none, some}
use mathlib.Core.List.{List, [], ◌∷◌}
use local_ai_coding_agent.Common.Int.{ℤ}
use local_ai_coding_agent.Common.Dicts.{Dict}

mutual
  pub data Json : Type 0 where
    null : Json
    bool : mathlib.Core.Bool.Bool → Json
    int : ℤ → Json
    float : String → Json
    str : String → Json
    arr : Items → Json
    obj : Fields → Json

  pub data Items : Type 0 where
    nil : Items
    cons : Json → Items → Items

  pub data Fields : Type 0 where
    end : Fields
    field : String → Json → Fields → Fields

abbrev pub items_list : Items → List Json
items_list nil = []
items_list (cons v vs) = v ∷ items_list vs

abbrev pub fields_dict : Fields → Dict Json
fields_dict end = []
fields_dict (field k v fs) = (k, v) ∷ fields_dict fs

-- A list of texts, and an optional text, as JSON.
abbrev pub str_items : List String → Items
str_items [] = nil
str_items (s ∷ ss) = cons (str s) (str_items ss)

abbrev pub optional_str : Option String → Json
optional_str none = null
optional_str (some s) = str s
