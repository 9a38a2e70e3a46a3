-- ===== src/Tools/Summaries.antt =====
-- The summary of the arguments in the audit table, and the fields of dicts that a call changes.
use eda_agent.Base.{
  ℕ, ◌+◌, map, leb→le, le→leb, String, ◌≡◌, refl, ap, ap₂, ◌≤◌, Bool, true, false, ◌&&◌, none, some,
  List, [], ◌∷◌, if◌then◌else◌, str_eq, Text, codes, take, length, length-take, length-append, leb,
  arith, Bool-cases, inl, inr, eq_iff, all_of,
}
use eda_agent.Json.{Value, Fields}
use eda_agent.Json.Value.{null, bool, int, negint, float, str, arr, obj}
use eda_agent.Json.Fields.{end, field}
use eda_agent.Json.Dict.{Dict, lookup}
use eda_agent.Tools.Calls.{
  clip, without_flag, get_field, set_field, texts, attach, summarize, summarize_arguments,
}

clip_bound : (n : ℕ) (s : Text) → length (clip n s) ≤ n + 3
unfolding clip
clip_bound n s = elim (Bool-cases (leb (length s) n)) [
  | inl e ↦ ground (arith, leb→le (length s) n e)
  | inr e ↦ ground (arith, length-append (take n s) (codes "..."), length-take n s)
]

module _ {F : Type 0} where
  pub get_field-set_field :
      (key j : String) (v : Value F) (fs : Fields F)
      → get_field j (set_field key v fs) ≡ (if str_eq key j then some v else get_field j fs)
  unfolding get_field set_field
  get_field-set_field key j v end = refl
  get_field-set_field key j v (field k w fs) =
      ground (arith, eq_iff k key, eq_iff k j, eq_iff key j, get_field-set_field key j v fs)

  -- A dict that gets warnings has them under _warnings, and has what it had under every other key.
  pub attach-obj :
      (j : String) (fs : Fields F) (ws : List Text)
      → (after : Fields F) × (attach (obj fs) ws ≡ obj after)
        × (get_field j after
            ≡ (if str_eq "_warnings" j then some (arr (texts ws)) else get_field j fs))
  unfolding attach
  attach-obj j fs ws = (_, refl, get_field-set_field "_warnings" j (arr (texts ws)) fs)

  pub lookup-without_flag :
      (args : Dict (Value F)) → lookup "_guardrail_confirmed" (without_flag args) ≡ none
  unfolding lookup without_flag
  lookup-without_flag [] = refl
  lookup-without_flag ((k, v) ∷ args) = ground (arith, lookup-without_flag args)

  lookup-without_flag_other :
      (j : String) (args : Dict (Value F))
      → str_eq "_guardrail_confirmed" j ≡ false
      → lookup j (without_flag args) ≡ lookup j args
  unfolding lookup without_flag
  lookup-without_flag_other j [] e = refl
  lookup-without_flag_other j ((k, v) ∷ args) e = ground (
    arith,
    eq_iff k "_guardrail_confirmed",
    eq_iff k j,
    eq_iff "_guardrail_confirmed" j,
    lookup-without_flag_other j args e,
  )

  -- A number, a truth value, None, or a text of at most 303 characters.
  abbrev pub is_short : Value F → Bool
  is_short (str s) = leb (length s) 303
  is_short (arr vs) = false
  is_short (obj fs) = false
  is_short v = true

  summarize_short : (plain : Value F → Text) (v : Value F) → is_short (summarize plain v) ≡ true
  summarize_short plain null = refl
  summarize_short plain (bool b) = refl
  summarize_short plain (int n) = refl
  summarize_short plain (negint n) = refl
  summarize_short plain (float x) = refl
  summarize_short plain (str s) = le→leb (length (clip 200 s)) 303 (omega (arith, clip_bound 200 s))
  summarize_short plain (arr vs) =
      le→leb (length (clip 300 (plain (arr vs)))) 303 (clip_bound 300 _)
  summarize_short plain (obj fs) =
      le→leb (length (clip 300 (plain (obj fs)))) 303 (clip_bound 300 _)

  -- Every value of the audit summary is a number, a truth value, None or a text of at most 303
  -- characters, whatever the arguments are, and the keys are theirs.
  pub summarize_arguments-is_short :
      (plain : Value F → Text) (args : Dict (Value F))
      → (all_of (λ entry. is_short entry.1) (summarize_arguments plain args) ≡ true)
        × (map (λ entry. entry.0) (summarize_arguments plain args) ≡ map (λ entry. entry.0) args)
  unfolding summarize_arguments
  summarize_arguments-is_short plain [] = (refl, refl)
  summarize_arguments-is_short plain ((k, v) ∷ args) = (
    ap₂ (λ a b. a && b) (summarize_short plain v) (summarize_arguments-is_short plain args).0,
    ap (λ ks. k ∷ ks) (summarize_arguments-is_short plain args).1,
  )
