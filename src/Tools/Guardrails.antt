-- ===== src/Tools/Guardrails.antt =====
-- agent/guardrails.py. Numbers with a point, their parsing, printing and comparison come from the
-- parameter `Floats`. A check may raise: `params.get` on a value that is no dict.
use eda_agent.Base.{
  ℕ, suc, String, Bool, true, false, not, Option, none, some, List, [], ◌∷◌, ◌++◌, if◌then◌else◌,
  ◌==◌, Text, codes,
}
use eda_agent.Json.{Value}
use eda_agent.Json.Value.{null, bool, int, negint, float, str, arr, obj}
use eda_agent.Json.Items.{nil, cons}
use eda_agent.Json.Fields.{end, field}
use eda_agent.Json.Dict.{Dict, lookup}
use eda_agent.Json.Dumps.{decimal}
use eda_agent.Memory.Scratchpad.{entries_onto}

-- Python's float: `float(text)`, which may raise ValueError, `str(x)`, `x != 0`, and the comparisons
-- with a whole number.
pub record Floats (F : Type 0) : Type 0 where
  pub parse : Text → Option F
  pub repr : F → Text
  pub nonzero : F → Bool
  pub above : F → ℕ → Bool
  pub below : F → ℕ → Bool

pub data RiskLevel : Type 0 where
  safe warn block : RiskLevel

pub record GuardrailResult : Type 0 where
  pub level : RiskLevel
  pub reason : Text
  pub warnings : List Text

abbrev pub is_blocked : GuardrailResult → Bool
is_blocked r = elim r.level [ safe ↦ false | warn ↦ false | block ↦ true ]

-- What one check gives: nothing, a result, or an AttributeError.
pub data Checked : Type 0 where
  passed crashed : Checked
  found : GuardrailResult → Checked

pub record Policy : Type 0 where
  pub risk_level : String
  pub requires_confirmation : Bool

abbrev pub blocks : Text → GuardrailResult
blocks reason = record { level = block; reason = reason; warnings = [] }

abbrev pub warns : List Text → GuardrailResult
warns ws = record { level = warn; reason = []; warnings = ws }

abbrev pub is_safe : GuardrailResult
is_safe = record { level = safe; reason = []; warnings = [] }

-- text.rstrip("%")
unfoldable pub rstrip_percent : Text → Text
rstrip_percent [] = []
rstrip_percent (c ∷ cs) = elim (rstrip_percent cs) [
  | [] ↦ if c == b'%' then [] else c ∷ []
  | d ∷ ds ↦ c ∷ d ∷ ds
]

abbrev pub clean_reason : Text
clean_reason = codes "clean=True 将删除所有已有的构建产物并强制重跑整个 flow，这是不可逆操作。请确认是否继续。"

module _ {F : Type 0} (fl : Floats F) where
  -- `if value:`
  abbrev pub truthy : Value F → Bool
  truthy null = false
  truthy (bool b) = b
  truthy (int n) = not (n == 0)
  truthy (negint n) = true
  truthy (float x) = fl.nonzero x
  truthy (str []) = false
  truthy (str (c ∷ cs)) = true
  truthy (arr nil) = false
  truthy (arr (cons v vs)) = true
  truthy (obj end) = false
  truthy (obj (field k v fs)) = true

  abbrev pub truthy_at : Option (Value F) → Bool
  truthy_at none = false
  truthy_at (some v) = truthy v

  -- float(str(raw).rstrip("%")): the text of a list or a dict is no number.
  unfoldable pub as_number : Value F → Option F
  unfolding rstrip_percent decimal
  as_number null = none
  as_number (bool b) = fl.parse (if b then codes "True" else codes "False")
  as_number (int n) = fl.parse (decimal n)
  as_number (negint n) = fl.parse (b'-' ∷ decimal (suc n))
  as_number (float x) = fl.parse (rstrip_percent (fl.repr x))
  as_number (str s) = fl.parse (rstrip_percent s)
  as_number (arr vs) = none
  as_number (obj fs) = none

  -- args.get("params") as far as the checks use it: falsy, a dict, or another truthy value.
  abbrev pub params_view : Option (Value F) → Option (Option (Dict (Value F)))
  params_view none = some none
  params_view (some (obj (field k v fs))) = some (some (entries_onto [] (field k v fs)))
  params_view (some v) = if truthy v then none else some none

  abbrev pub view : Dict (Value F) → Option (Option (Dict (Value F)))
  view args = params_view (lookup "params" args)

  unfoldable pub check_clean_flag : Dict (Value F) → Checked
  unfolding lookup
  check_clean_flag args =
      if truthy_at (lookup "clean" args) then found (blocks clean_reason) else elim (view args) [
        | none ↦ crashed
        | some none ↦ passed
        | some (some params) ↦
            if truthy_at (lookup "_clean" params) then found (blocks clean_reason) else passed
      ]

  abbrev pub over_reason : F → Text
  over_reason val =
      codes "CORE_UTILIZATION="
      ++ (fl.repr val
          ++ codes "% 超出安全上限（95%）。过高的 utilization 几乎必然导致 routing 失败和大量 DRC。请降低至 85% 以下再重试。")

  abbrev pub high_warning : F → Text
  high_warning val =
      codes "CORE_UTILIZATION=" ++ (fl.repr val ++ codes "% 较高（>85%），可能引发拥塞和 routing 困难。")

  abbrev pub low_warning : F → Text
  low_warning val =
      codes "CORE_UTILIZATION=" ++ (fl.repr val ++ codes "% 异常低（<25%），面积浪费严重，请确认是否为预期值。")

  abbrev pub range_warnings : F → List Text
  range_warnings val =
      (if fl.above val 85 then high_warning val ∷ [] else [])
      ++ (if fl.below val 25 then low_warning val ∷ [] else [])

  abbrev pub warn_if_any : List Text → Checked
  warn_if_any [] = passed
  warn_if_any (w ∷ ws) = found (warns (w ∷ ws))

  unfoldable pub check_value : F → Checked
  check_value val =
      if fl.above val 95 then found (blocks (over_reason val)) else warn_if_any (range_warnings val)

  abbrev pub check_raw : Option (Value F) → Checked
  check_raw none = passed
  check_raw (some v) = elim (as_number v) [ none ↦ passed | some val ↦ check_value val ]

  unfoldable pub check_utilization : Dict (Value F) → Checked
  unfolding lookup
  check_utilization args = elim (view args) [
    | none ↦ crashed
    | some none ↦ passed
    | some (some params) ↦ check_raw (lookup "CORE_UTILIZATION" params)
  ]
