-- ===== src/Planner/Reading.antt =====
-- agent/planner.py: tool calls that a model writes into its text, in prompt mode and under Ollama.
-- `key_of` gives a text as the string that it is; a function's name that is no text counts as shown.
use eda_agent.Base.{
  ℕ, zero, suc, String, true, false, Option, none, some, List, [], ◌∷◌, ◌++◌, if◌then◌else◌, Text,
  codes, length, is_space, ◌==◌, or_else,
}
use eda_agent.Json.{Value}
use eda_agent.Json.Value.{str, obj}
use eda_agent.Json.Fields.{end, field}
use eda_agent.Json.Dict.{Dict, lookup}
use eda_agent.Memory.Scratchpad.{as_dict}
use eda_agent.Tools.Guardrails.{truthy_at}
use eda_agent.Planner.Model.{Call, Choice, Response, Services}

-- The rest of a text after a prefix.
unfoldable pub after_prefix : Text → Text → Option Text
after_prefix [] t = some t
after_prefix (p ∷ ps) [] = none
after_prefix (p ∷ ps) (c ∷ t) = let rest = after_prefix ps t in if p == c then rest else none

-- The text before the first place where the needle stands, and the text behind it.
unfoldable pub split_at : Text → Text → Option (Text × Text)
unfolding after_prefix
split_at needle [] = elim (after_prefix needle []) [ none ↦ none | some rest ↦ some ([], rest) ]
split_at needle (c ∷ t) =
    let later = split_at needle t in
    elim (after_prefix needle (c ∷ t)) [
      | some rest ↦ some ([], rest)
      | none ↦ elim later [ none ↦ none | some (a, b) ↦ some (c ∷ a, b) ]
    ]

abbrev pub drop_space : Text → Text
drop_space [] = []
drop_space (c ∷ t) = if is_space c then drop_space t else c ∷ t

abbrev pub drop_end_space : Text → Text
drop_end_space [] = []
drop_end_space (c ∷ t) = elim (drop_end_space t) [
  | [] ↦ if is_space c then [] else c ∷ []
  | d ∷ ds ↦ c ∷ d ∷ ds
]

unfoldable pub strip_text : Text → Text
strip_text t = drop_space (drop_end_space t)

-- A match starts at an opening tag and ends at the next closing tag; `rest` goes on behind it.
abbrev pub closed_block :
    (Text → List Text × Text) → Text → Text → Option (Text × Text) → List Text × Text
closed_block rest t before none = ([], t)
closed_block rest t before (some (block, after)) =
    let (blocks, outside) = rest after in (strip_text block ∷ blocks, before ++ outside)

abbrev pub opened_block : (Text → List Text × Text) → Text → Option (Text × Text) → List Text × Text
opened_block rest t none = ([], t)
opened_block rest t (some (before, inner)) =
    closed_block rest t before (split_at (codes "</tool_call>") inner)

-- The blocks that `_TOOL_CALL_RE` finds, and the text without them. A round takes off two tags, so the
-- length of the text is enough fuel.
unfoldable pub tool_call_blocks : ℕ → Text → List Text × Text
unfolding split_at strip_text
tool_call_blocks zero t = ([], t)
tool_call_blocks (suc fuel) t =
    opened_block (tool_call_blocks fuel) t (split_at (codes "<tool_call>") t)

module _ {F W : Type 0} (sv : Services F W) (key_of : Text → String) where
  abbrev pub name_key : Value F → String
  name_key (str s) = key_of s
  name_key v = key_of (sv.show v)

  -- The dict of a call, with a fresh id.
  abbrev pub new_call : Value F → Value F → W → Call F × W
  new_call name args w =
      let (i, w') = sv.fresh_id w in
      let text = sv.plain_dumps args in
      (
        record {
          stored = record {
            id = some i;
            others =
                field "type" (str (codes "function")) (
                  field "function" (obj (field "name" name (field "arguments" (str text) end)))
                    end);
          };
          name = some (name_key name);
          arguments = some text;
        },
        w',
      )

  abbrev pub block_call : Option (Dict (Value F)) → W → Option (Call F) × W
  block_call none w = (none, w)
  block_call (some found) w = elim (lookup "name" found) [
    | none ↦ (none, w)
    | some name ↦ elim (truthy_at sv.floats (some name)) [
      | false ↦ (none, w)
      | true ↦
          let (call, w') = new_call name (or_else (lookup "arguments" found) (obj end)) w in
          (some call, w')
    ]
  ]

  unfoldable pub parse_tool_calls : List Text → W → List (Call F) × W
  unfolding lookup
  parse_tool_calls [] w = ([], w)
  parse_tool_calls (block ∷ blocks) w =
      let (call, w') = block_call (as_dict (sv.loads block)) w in
      let (calls, w'') = parse_tool_calls blocks w' in
      (elim call [ none ↦ calls | some c ↦ c ∷ calls ], w'')

  abbrev pub with_tool_calls : Choice F → Text → List (Call F) → Choice F
  with_tool_calls choice content calls = record choice {
    content = some content;
    calls = calls;
    finish_reason = some "tool_calls";
  }

  abbrev pub prompt_choice : Choice F → Text → List (Call F) → Choice F
  prompt_choice choice outside [] = choice
  prompt_choice choice outside (call ∷ calls) =
      with_tool_calls choice (strip_text outside) (call ∷ calls)

  unfoldable pub normalize_prompt_mode : Response F → W → Response F × W
  unfolding tool_call_blocks parse_tool_calls
  normalize_prompt_mode r w = elim r.choices [
    | [] ↦ (r, w)
    | choice ∷ others ↦
        let content = or_else choice.content [] in
        let (blocks, outside) = tool_call_blocks (suc (length content)) content in
        let (calls, w') = parse_tool_calls blocks w in
        (record r { choices = prompt_choice choice outside calls ∷ others }, w')
  ]

  -- The arguments as Ollama gives them: a text is read, and what is no dict then counts as none.
  abbrev pub ollama_arguments : Option (Value F) → Value F
  ollama_arguments none = obj end
  ollama_arguments (some (str s)) = or_else (sv.loads s) (obj end)
  ollama_arguments (some (obj fs)) = obj fs
  ollama_arguments (some v) = obj end

  abbrev pub ollama_choice : Option (Dict (Value F)) → Choice F → W → Choice F × W
  ollama_choice none choice w = (choice, w)
  ollama_choice (some found) choice w = elim (lookup "name" found) [
    | none ↦ (choice, w)
    | some name ↦
        let (call, w') = new_call name (ollama_arguments (lookup "arguments" found)) w in
        (with_tool_calls choice [] (call ∷ []), w')
  ]

  unfoldable pub normalize_ollama : Response F → W → Response F × W
  unfolding lookup
  normalize_ollama r w = elim r.choices [
    | [] ↦ (r, w)
    | choice ∷ others ↦
        let (new_choice, w') =
          ollama_choice (as_dict (sv.loads (or_else choice.content []))) choice w in
        (record r { choices = new_choice ∷ others }, w')
  ]
