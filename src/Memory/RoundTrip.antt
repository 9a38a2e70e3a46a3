-- ===== src/Memory/RoundTrip.antt =====
-- Storing a session and restoring it: `to_dict` and `from_dict`.
use eda_agent.Base.{
  ℕ, String, ◌≤◌, ◌≡◌, refl, ap, subst, ◌∙◌, ◌⊎◌, inl, inr, Bool, true, false, Option, none, some,
  List, [], ◌∷◌, ◌++◌, arith, map, if◌then◌else◌, length, Option-cases, All, is_some, or_else,
}
use eda_agent.Memory.History.{Role, system, user, assistant, tool, Message, Memory, evict}
use eda_agent.Memory.Wire.{
  Entry, Payload, WireRole, known, other, serialise, truthy, truthy_list, awaited, load_as,
  load_tool, load_from, to_dict, from_dict,
}
use eda_agent.Memory.Pairing.{after_role, pending_from, IsPaired, split_paired, from_dict-IsPaired}
use eda_agent.Memory.Eviction.{evict-suffix, evict_fits}

truthy_name : (o : Option String) → or_else (truthy o) "" ≡ or_else o ""
truthy_name none = refl
truthy_name (some String.[]) = refl
truthy_name (some (String.◌∷◌ c s)) = refl

awaited-truthy : (p : List String) (o : Option String) → awaited p (truthy o) ≡ awaited p o
awaited-truthy p none = refl
awaited-truthy p (some String.[]) = refl
awaited-truthy p (some (String.◌∷◌ c s)) = refl

truthy_idem {ℓ} : {A : Type ℓ} (o : Option (List A)) → truthy_list (truthy_list o) ≡ truthy_list o
truthy_idem none = refl
truthy_idem (some []) = refl
truthy_idem (some (x ∷ xs)) = refl

awaited-eq : (p : List String) (o : Option String) (i : String) → awaited p o ≡ some i → o ≡ some i
awaited-eq p none i h = cc
awaited-eq p (some j) i h = ground arith

module _ {F : Type 0} where
  -- The shape that `add_user`, `add_assistant` and `add_tool_result` give to a message: the fields of
  -- the other roles are `None`, and an assistant turn has a list of calls only if it is not empty.
  abbrev CanonicalAs : Role → Message F → Type 0
  CanonicalAs system m = ⊥
  CanonicalAs user m = (m.tool_name ≡ none) × (m.tool_call_id ≡ none) × (m.tool_calls ≡ none)
  CanonicalAs assistant m =
      (m.tool_name ≡ none) × (m.tool_call_id ≡ none) × (truthy_list m.tool_calls ≡ m.tool_calls)
  CanonicalAs tool m = (m.tool_name ≡ some (or_else m.tool_name "")) × (m.tool_calls ≡ none)

  abbrev pub IsCanonical : Message F → Type 0
  IsCanonical m = CanonicalAs m.role m

  reload :
      (r : Role) (p q : List String) (m : Message F)
      → m.role ≡ r
      → CanonicalAs r m
      → after_role r p m ≡ some q
      → load_as (known r) p (serialise m) ≡ (q, some m)
  unfolding serialise
  reload system p q m e c h = absurd c
  reload user p q m e c h = ground arith
  reload assistant p q m e c h = ground arith
  reload tool p q m e c h = elim (Option-cases (awaited p m.tool_call_id)) [
    | inl k ↦ cc (rw (k, after_role) at h)
    | inr (i, k) ↦ ground (
      arith,
      awaited-truthy p m.tool_call_id,
      truthy_name m.tool_name,
      awaited-eq p m.tool_call_id i k,
    )
  ]

  load_from-kept :
      (p q : List String) (e : Entry F) (es : List (Entry F)) (m : Message F)
      → load_as e.role p e ≡ (q, some m)
      → load_from p (e ∷ es) ≡ m ∷ load_from q es
  unfolding load_from
  load_from-kept p q e es m h =
      ap
        (λ (r : List String × Option (Message F)). elim r.1 [
          | none ↦ load_from r.0 es
          | some x ↦ x ∷ load_from r.0 es
        ])
        h

  load_from-map-serialise :
      (p : List String) (ms : List (Message F))
      → is_some (pending_from p ms) ≡ true
      → All IsCanonical ms
      → load_from p (map serialise ms) ≡ ms
  unfolding load_from
  load_from-map-serialise p [] h c = refl
  load_from-map-serialise p (m ∷ ms) h c =
      let (q, e, k) = split_paired p m ms h in
      load_from-kept p q (serialise m) (map serialise ms) m
        (unfold serialise in reload m.role p q m refl c.0 e)
      ∙ ap (◌∷◌ m) (load_from-map-serialise q ms k c.1)

  evict-eq_of_fits : (n : ℕ) (ms : List (Message F)) → (n ≡ 0) ⊎ (length ms ≤ n) → evict n ms ≡ ms
  unfolding evict
  evict-eq_of_fits n ms h = ground arith

  restored_history :
      (mem : Memory F)
      → IsPaired mem.history
      → All IsCanonical mem.history
      → (mem.max_messages ≡ 0) ⊎ (length mem.history ≤ mem.max_messages)
      → evict mem.max_messages (load_from [] (map serialise mem.history)) ≡ mem.history
  restored_history mem h c fits =
      ap (evict mem.max_messages) (load_from-map-serialise [] mem.history h c)
      ∙ evict-eq_of_fits mem.max_messages mem.history fits

  -- A paired and canonical session within its limit that is stored and restored under the same
  -- limit has its history and context back, the volatile facts only where they were asked for, and
  -- the default cap on tool results.
  pub from_dict-to_dict :
      (persist_internal : Bool) (mem : Memory F)
      → IsPaired mem.history
      → All IsCanonical mem.history
      → (mem.max_messages ≡ 0) ⊎ (length mem.history ≤ mem.max_messages)
      → from_dict mem.max_messages (to_dict persist_internal mem) ≡ record mem {
        tool_result_max_chars = 8192;
        internal = if persist_internal then mem.internal else [];
      }
  unfolding from_dict to_dict
  from_dict-to_dict true mem h c fits =
      ap (λ l. record mem { tool_result_max_chars = 8192; history = l })
        (restored_history mem h c fits)
  from_dict-to_dict false mem h c fits =
      ap (λ l. record mem { tool_result_max_chars = 8192; history = l; internal = [] })
        (restored_history mem h c fits)

  keep-IsCanonical :
      (r : WireRole) (p : List String) (e : Entry F) (rest : List (Message F))
      → All IsCanonical rest
      → All IsCanonical (elim (load_as r p e).1 [ none ↦ rest | some m ↦ m ∷ rest ])
  keep-IsCanonical (other _) p e rest h = h
  keep-IsCanonical (known system) p e rest h = h
  keep-IsCanonical (known user) p e rest h = ((refl, refl, refl), h)
  keep-IsCanonical (known assistant) p e rest h = ((refl, refl, truthy_idem e.tool_calls), h)
  keep-IsCanonical (known tool) p e rest h = keep_tool (awaited p e.tool_call_id) h
    where
      keep_tool :
          (o : Option String)
          → All IsCanonical rest
          → All IsCanonical (elim (load_tool p e o).1 [ none ↦ rest | some m ↦ m ∷ rest ])
      keep_tool none k = k
      keep_tool (some i) k = ((refl, refl), k)

  load_from-IsCanonical : (p : List String) (es : List (Entry F)) → All IsCanonical (load_from p es)
  unfolding load_from
  load_from-IsCanonical p [] = tt
  load_from-IsCanonical p (e ∷ es) =
      keep-IsCanonical e.role p e (load_from (load_as e.role p e).0 es)
        (load_from-IsCanonical (load_as e.role p e).0 es)

  All-suffix : (d r : List (Message F)) → All IsCanonical (d ++ r) → All IsCanonical r
  All-suffix [] r h = h
  All-suffix (m ∷ d) r h = All-suffix d r h.1

  evict-IsCanonical :
      (n : ℕ) (ms : List (Message F)) → All IsCanonical ms → All IsCanonical (evict n ms)
  evict-IsCanonical n ms h =
      let (d, e) = evict-suffix n ms in All-suffix d (evict n ms) (subst (All IsCanonical) e h)

  restored-IsCanonical :
      (n : ℕ) (payload : Payload F) → All IsCanonical (from_dict n payload).history
  unfolding from_dict
  restored-IsCanonical n payload =
      evict-IsCanonical n _ (load_from-IsCanonical [] (or_else payload.messages []))

  restored_fits :
      (n : ℕ) (payload : Payload F) → (n ≡ 0) ⊎ (length (from_dict n payload).history ≤ n)
  unfolding from_dict
  restored_fits n payload = evict_fits n (load_from [] (or_else payload.messages []))

  -- Restoring any stored payload and storing it again is stable: a second restore under the same
  -- limit gives the history and the context of the first, whatever the payload holds.
  pub restore_again :
      (n : ℕ) (payload : Payload F)
      → let mem = from_dict n payload in
        let again = from_dict n (to_dict false mem) in
        (again.history ≡ mem.history) × (again.context ≡ mem.context)
  unfolding from_dict
  restore_again n payload =
      let e =
        from_dict-to_dict false (from_dict n payload) (from_dict-IsPaired n payload)
          (restored-IsCanonical n payload) (restored_fits n payload) in
      (ap (λ (m : Memory F). m.history) e, ap (λ (m : Memory F). m.context) e)
