-- ===== src/Json.antt =====
-- The dynamic values that the agent passes around as dicts, and `json.dumps` of the standard
-- library with its defaults (ASCII output, ", " and ": "). Numbers with a point are of a type `F`
-- that the model leaves open; `negint n` is -(n + 1).
pub mod Dict
pub mod Dumps
use eda_agent.Base.{ℕ, String, Bool, Text}

mutual
  pub data Value (F : Type 0) : Type 0 where
    null : Value F
    bool : Bool → Value F
    int : ℕ → Value F
    negint : ℕ → Value F
    float : F → Value F
    str : Text → Value F
    arr : Items F → Value F
    obj : Fields F → Value F

  pub data Items (F : Type 0) : Type 0 where
    nil : Items F
    cons : Value F → Items F → Items F

  pub data Fields (F : Type 0) : Type 0 where
    end : Fields F
    field : String → Value F → Fields F → Fields F
