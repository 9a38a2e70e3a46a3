-- ===== src/CustomTools/Registry.antt =====
-- The registry that the built-in tools and the loaded ones make up.
use eda_agent.Base.{
  String, Bool, true, false, ◌≡◌, refl, ap, subst, ◌∙◌, Option, none, some, List, [], ◌∷◌, ◌++◌,
  ◌||◌, All, Text, str_eq, mem_str, eq_iff, arith,
}
use eda_agent.Json.{Value}
use eda_agent.Json.Dict.{Dict, lookup}
use eda_agent.Tools.Guardrails.{Policy}
use eda_agent.Tools.Check.{register_custom_tool_policies}
use eda_agent.Tools.Execute.{Tool}
use eda_agent.CustomTools.Spec.{
  Loading, loaded, config_error, other_error, and_then, Rules, should_include_tool,
}
use eda_agent.CustomTools.Returns.{
  PlainFile, PlainSpecs, load_custom_tools-Returns, load_entry_points-Returns,
}
use eda_agent.CustomTools.Checks.{Returns}
use eda_agent.CustomTools.Load.{
  Runner, FileRead, Tools, EntryPoint, no_tools, load_custom_tools, load_entry_points,
}
use eda_agent.CustomTools.Bindings.{
  keys, gather, bind_file, and_reserved, bind_entry_points, load_custom_tool_bindings,
  bind_registry,
}
use eda_agent.CustomTools.Names.{lookup-update}
use eda_agent.CustomTools.Gathered.{file_names, entry_names, bindings_names}
use eda_agent.CustomTools.Trust.{IsKnown, and_then-inv, loaded-inj}
use eda_agent.CustomTools.Sound.{
  IsNew, Sound, gather-Sound, load_custom_tools-Sound, load_entry_points-Sound,
}

reserved_before :
    (n : String) (a b : List String) → mem_str n (a ++ b) ≡ false → mem_str n a ≡ false
reserved_before n [] b h = refl
reserved_before n (x ∷ a) b h = grind (arith, h, reserved_before n a b)

All-weaken :
    (P Q : String → Type 0) → ((n : String) → P n → Q n) → (ks : List String) → All P ks → All Q ks
All-weaken P Q f [] h = tt
All-weaken P Q f (k ∷ ks) h = (f k h.0, All-weaken P Q f ks h.1)

differ :
    (k name : String) (builtin : List String)
    → mem_str name builtin ≡ true
    → mem_str k builtin ≡ false
    → str_eq k name ≡ false
differ k name [] m h = grind (arith, m)
differ k name (b ∷ builtin) m h =
    grind (arith, m, h, differ k name builtin, eq_iff b name, eq_iff b k, eq_iff k name)

-- A name that is in a list differs from all the names that are not.
apart :
    (name : String) (builtin ks : List String)
    → mem_str name builtin ≡ true
    → All (λ n. mem_str n builtin ≡ false) ks
    → All (λ k. str_eq k name ≡ false) ks
apart name builtin [] m h = tt
apart name builtin (k ∷ ks) m h = (differ k name builtin m h.0, apart name builtin ks m h.1)

module _ {F R : Type 0} (key_of : Text → String) (show : Value F → Text) (build_runner : Runner → R)
    (source : String) (rules : Rules) where
  bind_file-Sound :
      (file : Option (FileRead F)) (t : Tools F R)
      → bind_file key_of show build_runner source rules file ≡ loaded t
      → Sound rules t
  bind_file-Sound none t e = subst (Sound rules) (loaded-inj e) (tt, refl, tt)
  bind_file-Sound (some raw) t e =
      gather-Sound rules no_tools (load_custom_tools key_of rules build_runner source raw) t
        (tt, refl, tt) (λ more. load_custom_tools-Sound rules key_of build_runner source raw more) e

  late-Sound :
      (tools more : Tools F R)
      → Sound (and_reserved key_of show build_runner source rules tools) more
      → Sound rules more
  late-Sound tools more h = (
    All-weaken (IsNew (and_reserved key_of show build_runner source rules tools)) (IsNew rules)
        (λ n k. (reserved_before n rules.reserved (keys tools.dispatch) k.0, k.1))
        (keys more.dispatch) h.0,
    h.1,
    h.2,
  )

  bind_entry_points-Sound :
      (enabled : Bool) (eps : List (EntryPoint F R)) (tools t : Tools F R)
      → Sound rules tools
      → bind_entry_points key_of show build_runner source rules enabled eps tools ≡ loaded t
      → Sound rules t
  bind_entry_points-Sound false eps tools t h e = subst (Sound rules) (loaded-inj e) h
  bind_entry_points-Sound true eps tools t h e =
      let late = and_reserved key_of show build_runner source rules tools in
      gather-Sound rules tools (load_entry_points key_of show late eps no_tools) t h
        (λ more e1.
          late-Sound tools more
            (load_entry_points-Sound late key_of show eps no_tools more (tt, refl, tt) e1))
        e

  pub bindings-Sound :
      (file : Option (FileRead F)) (enabled : Bool) (eps : List (EntryPoint F R)) (t : Tools F R)
      → load_custom_tool_bindings key_of show build_runner source rules file enabled eps ≡ loaded t
      → Sound rules t
  unfolding load_custom_tool_bindings
  bindings-Sound file enabled eps t e =
      let (tools, e1, e2) = and_then-inv (bind_file key_of show build_runner source rules file) e in
      bind_entry_points-Sound enabled eps tools t (bind_file-Sound file tools e1) e2

  -- The file, where one is set, is not unreadable, and no permissions in it or in the entry points
  -- have a list or a dict for a risk level.
  abbrev pub PlainRisks : Option (FileRead F) → List (EntryPoint F R) → Type 0
  PlainRisks none eps = All (λ (ep : EntryPoint F R). PlainSpecs ep.specs) eps
  PlainRisks (some raw) eps =
      PlainFile key_of rules build_runner source raw
      × All (λ (ep : EntryPoint F R). PlainSpecs ep.specs) eps

  gathered :
      (tools : Tools F R) (r : Loading (Tools F R))
      → Returns r
      → (t : Tools F R) × (gather tools r ≡ loaded t)
  gathered tools (loaded more) h = (_, refl)
  gathered tools config_error h = (tools, refl)
  gathered tools other_error h = elim h [ ]

  file_bound :
      (file : Option (FileRead F)) (eps : List (EntryPoint F R))
      → PlainRisks file eps
      → (t : Tools F R) × (bind_file key_of show build_runner source rules file ≡ loaded t)
  file_bound none eps h = (no_tools, refl)
  file_bound (some raw) eps h =
      gathered no_tools (load_custom_tools key_of rules build_runner source raw)
        (load_custom_tools-Returns key_of rules build_runner source raw h.0)

  plain_entry_points :
      (file : Option (FileRead F)) (eps : List (EntryPoint F R))
      → PlainRisks file eps
      → All (λ (ep : EntryPoint F R). PlainSpecs ep.specs) eps
  plain_entry_points none eps h = h
  plain_entry_points (some raw) eps h = h.1

  entry_points_bound :
      (enabled : Bool) (eps : List (EntryPoint F R)) (tools : Tools F R)
      → All (λ (ep : EntryPoint F R). PlainSpecs ep.specs) eps
      → (t : Tools F R) × (bind_entry_points key_of show build_runner source rules enabled eps tools
          ≡ loaded t)
  entry_points_bound false eps tools h = (tools, refl)
  entry_points_bound true eps tools h =
      let late = and_reserved key_of show build_runner source rules tools in
      gathered tools (load_entry_points key_of show late eps no_tools)
        (load_entry_points-Returns key_of show late eps no_tools h)

  pub bindings_returned :
      (file : Option (FileRead F)) (enabled : Bool) (eps : List (EntryPoint F R))
      → PlainRisks file eps
      → (t : Tools F R) × (load_custom_tool_bindings key_of show build_runner source rules file
            enabled eps
          ≡ loaded t)
  unfolding load_custom_tool_bindings and_then
  bindings_returned file enabled eps h =
      let (tools, e) = file_bound file eps h in
      let (t, e1) = entry_points_bound enabled eps tools (plain_entry_points file eps h) in
      (
        t,
        ap
              (λ r. and_then r (λ found.
                bind_entry_points key_of show build_runner source rules enabled eps found))
              e
            ∙ e1,
      )

module _ {F W : Type 0} (key_of : Text → String) (show : Value F → Text)
    (build_runner : Runner → Tool F W) (source : String) where
  abbrev pub rules_for : Dict (Tool F W) → List String → List String → Rules
  rules_for builtin allowlist denylist = record {
    reserved = keys builtin;
    allowlist = allowlist;
    denylist = denylist;
  }

  -- If the file, where one is set, does not raise another error than a missing file or broken JSON
  -- when it is read, and no permissions in it or in the entry points have a list or a dict for a
  -- risk level, then the binding returns without an exception. A name is custom in the registry
  -- that results exactly if the loader of the file or, where they are enabled, that of the entry
  -- points gives it, and a loader that ends in a configuration error gives none. Every built-in
  -- name keeps its built-in tool; every custom name is new, not denied and, where there is an
  -- allow list, in it; and the custom names are those of the policies, each with a level that the
  -- guardrails know.
  pub bind_registry_lem :
      (builtin : Dict (Tool F W)) (allowlist denylist : List String) (old : Dict Policy)
      (file : Option (FileRead F)) (enabled : Bool) (eps : List (EntryPoint F (Tool F W)))
      → PlainRisks key_of show build_runner source (rules_for builtin allowlist denylist) file eps
      → let rules = rules_for builtin allowlist denylist in
        (tools : Tools F (Tool F W)) × (load_custom_tool_bindings key_of show build_runner source
            rules file enabled eps
          ≡ loaded tools)
        × ((name : String)
            → mem_str name (keys builtin) ≡ true
            → lookup name (bind_registry old builtin tools).dispatch ≡ lookup name builtin)
        × ((n : String)
            → mem_str n (bind_registry old builtin tools).custom_names ≡ (
                mem_str n (file_names key_of show build_runner source rules file)
                || mem_str n (entry_names key_of show build_runner source rules file enabled eps)))
        × All
            (λ n. (mem_str n (keys builtin) ≡ false) × (should_include_tool rules n ≡ true))
            (bind_registry old builtin tools).custom_names
        × (keys (bind_registry old builtin tools).policies
            ≡ (bind_registry old builtin tools).custom_names)
        × All (λ (e : String × Policy). IsKnown e.1) (bind_registry old builtin tools).policies
  unfolding bind_registry register_custom_tool_policies
  bind_registry_lem builtin allowlist denylist old file enabled eps h =
      let rules = rules_for builtin allowlist denylist in
      let (tools, e) = bindings_returned key_of show build_runner source rules file enabled eps h in
      let (new, same, known) =
        bindings-Sound key_of show build_runner source rules file enabled eps tools e in
      (
        tools,
        e,
        λ name m. lookup-update name builtin tools.dispatch (
            apart name (keys builtin) (keys tools.dispatch) m (
              All-weaken (IsNew rules) (λ n. mem_str n (keys builtin) ≡ false) (λ n k. k.0)
                (keys tools.dispatch) new)),
        λ n. bindings_names key_of show build_runner source rules n file enabled eps tools e,
        new,
        same,
        known,
      )
