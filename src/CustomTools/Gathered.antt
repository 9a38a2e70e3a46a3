-- ===== src/CustomTools/Gathered.antt =====
-- Which names are bound: those that the two loaders give.
use eda_agent.Base.{
  String, Bool, true, false, ◌||◌, ◌≡◌, sym, ap, ◌∙◌, Option, none, some, List, [], ◌∷◌, Text,
  str_eq, mem_str, eq_iff, arith,
}
use eda_agent.Json.{Value}
use eda_agent.Json.Dict.{Dict, insert}
use eda_agent.CustomTools.Spec.{Loading, loaded, config_error, other_error, and_then, Rules}
use eda_agent.CustomTools.Load.{
  Runner, FileRead, Tools, EntryPoint, no_tools, load_custom_tools, load_entry_points,
}
use eda_agent.CustomTools.Bindings.{
  keys, update, gather, bind_file, and_reserved, bind_entry_points, load_custom_tool_bindings,
}
use eda_agent.CustomTools.Trust.{and_then-inv, loaded-inj}
use eda_agent.CustomTools.Names.{insert_key, keys-insert}

-- The names that a loader gives; a configuration error gives none.
abbrev pub names_of : {F R : Type 0} → Loading (Tools F R) → List String
names_of (loaded tools) = keys tools.dispatch
names_of config_error = []
names_of other_error = []

mem-insert_key :
    (n key : String) (ks : List String)
    → mem_str n (insert_key key ks) ≡ (mem_str n ks || str_eq key n)
mem-insert_key n key [] = ground arith
mem-insert_key n key (k ∷ ks) = grind (arith, mem-insert_key n key ks, eq_iff k key)

or_assoc : (a b c : Bool) → ((a || b) || c) ≡ (a || (b || c))
or_assoc a b c = ground arith

mem-update {ℓ} :
    {V : Type ℓ} (n : String) (d e : Dict V)
    → mem_str n (keys (update d e)) ≡ (mem_str n (keys d) || mem_str n (keys e))
unfolding update
mem-update n d [] = ground arith
mem-update n d ((i, x) ∷ e) =
    mem-update n (insert i x d) e
    ∙ ap (λ ks. mem_str n ks || mem_str n (keys e)) (keys-insert i x d)
    ∙ ap (λ b. b || mem_str n (keys e)) (mem-insert_key n i (keys d))
    ∙ or_assoc (mem_str n (keys d)) (str_eq i n) (mem_str n (keys e))

gather_names :
    {F R : Type 0} (n : String) (tools t : Tools F R) (r : Loading (Tools F R))
    → gather tools r ≡ loaded t
    → mem_str n (keys t.dispatch) ≡ (mem_str n (keys tools.dispatch) || mem_str n (names_of r))
gather_names n tools t (loaded more) e =
    ap (λ (x : Tools _ _). mem_str n (keys x.dispatch)) (sym (loaded-inj e))
    ∙ mem-update n tools.dispatch more.dispatch
gather_names n tools t config_error e =
    ap (λ (x : Tools _ _). mem_str n (keys x.dispatch)) (sym (loaded-inj e)) ∙ ground arith
gather_names n tools t other_error e = grind (arith, e)

module _ {F R : Type 0} (key_of : Text → String) (show : Value F → Text) (build_runner : Runner → R)
    (source : String) (rules : Rules) where
  -- The names that the loader of the file gives.
  abbrev pub file_names : Option (FileRead F) → List String
  file_names none = []
  file_names (some read) = names_of (load_custom_tools key_of rules build_runner source read)

  -- The names that the loader of the entry points gives, after the file.
  abbrev pub entry_names : Option (FileRead F) → Bool → List (EntryPoint F R) → List String
  entry_names file false eps = []
  entry_names file true eps = names_of (
      and_then (bind_file key_of show build_runner source rules file) (λ tools.
        load_entry_points key_of show (and_reserved key_of show build_runner source rules tools) eps
          no_tools))

  bind_file_names :
      (n : String) (file : Option (FileRead F)) (t : Tools F R)
      → bind_file key_of show build_runner source rules file ≡ loaded t
      → mem_str n (keys t.dispatch) ≡ mem_str n (file_names file)
  bind_file_names n none t e =
      ap (λ (x : Tools F R). mem_str n (keys x.dispatch)) (sym (loaded-inj e))
  bind_file_names n (some read) t e =
      gather_names n no_tools t (load_custom_tools key_of rules build_runner source read) e

  bind_entry_points_names :
      (n : String) (file : Option (FileRead F)) (enabled : Bool) (eps : List (EntryPoint F R))
      (tools t : Tools F R)
      → bind_file key_of show build_runner source rules file ≡ loaded tools
      → bind_entry_points key_of show build_runner source rules enabled eps tools ≡ loaded t
      → mem_str n (keys t.dispatch)
        ≡ (mem_str n (keys tools.dispatch) || mem_str n (entry_names file enabled eps))
  unfolding and_then
  bind_entry_points_names n file false eps tools t e1 e2 =
      ap (λ (x : Tools F R). mem_str n (keys x.dispatch)) (sym (loaded-inj e2)) ∙ ground arith
  bind_entry_points_names n file true eps tools t e1 e2 =
      let load = λ (found : Tools F R).
        load_entry_points key_of show (and_reserved key_of show build_runner source rules found) eps
          no_tools in
      gather_names n tools t (load tools) e2
      ∙ ap (λ r. mem_str n (keys tools.dispatch) || mem_str n (names_of (and_then r load))) (sym e1)

  -- A name is bound if and only if one of the two loaders gives it.
  pub bindings_names :
      (n : String) (file : Option (FileRead F)) (enabled : Bool) (eps : List (EntryPoint F R))
      (t : Tools F R)
      → load_custom_tool_bindings key_of show build_runner source rules file enabled eps ≡ loaded t
      → mem_str n (keys t.dispatch)
        ≡ (mem_str n (file_names file) || mem_str n (entry_names file enabled eps))
  unfolding load_custom_tool_bindings
  bindings_names n file enabled eps t e =
      let (tools, e1, e2) = and_then-inv (bind_file key_of show build_runner source rules file) e in
      bind_entry_points_names n file enabled eps tools t e1 e2
      ∙ ap (λ b. b || mem_str n (entry_names file enabled eps)) (bind_file_names n file tools e1)
