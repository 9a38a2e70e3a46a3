-- ===== src/Memory/Pairing.antt =====
-- Which tool calls of the last turn still wait for their result, and what adding, evicting and
-- loading messages does to the pairs of a call and its result.
use eda_agent.Base.{
  ℕ, zero, suc, String, ◌≡◌, refl, inl, inr, Bool, true, false, Option, none, some, List, [], ◌∷◌,
  ◌++◌, arith, leb, length, nonempty, mem_str, is_some, or_else, Bool-cases, Option-cases, Text,
}
use eda_agent.Memory.Groups.{drop_tools, drop_until}
use eda_agent.Memory.History.{
  Role, system, user, assistant, tool, ToolCall, Message, Memory, is_tool, evict, add, add_user,
  add_assistant, add_tool_result,
}
use eda_agent.Memory.Wire.{
  WireRole, Entry, Payload, declared_by, awaited, discard, load_as, load_tool, load_from, from_dict,
  known, other,
}

awaited_again :
    (pending : List String) (o : Option String) (i : String)
    → awaited pending o ≡ some i
    → awaited pending (some i) ≡ some i
awaited_again pending none i h = cc
awaited_again pending (some j) i h = ground arith

module _ {F : Type 0} where
  abbrev pub after_role : Role → List String → Message F → Option (List String)
  after_role tool pending m = elim (awaited pending m.tool_call_id) [
    | none ↦ none
    | some i ↦ some (discard i pending)
  ]
  after_role assistant pending m = some (declared_by m.tool_calls)
  after_role user pending m = some []
  after_role system pending m = some []

  -- The ids that wait after a history; `none` if a tool message answers no waiting call of the
  -- closest message before it that is no tool message.
  unfoldable pub pending_from : List String → List (Message F) → Option (List String)
  pending_from pending [] = some pending
  pending_from pending (m ∷ ms) = elim (after_role m.role pending m) [
    | none ↦ none
    | some q ↦ pending_from q ms
  ]

  -- Every tool message of the history answers a call that waits for it.
  abbrev pub IsPaired : List (Message F) → Type 0
  IsPaired ms = is_some (pending_from [] ms) ≡ true

  -- A message that is no tool message forgets what waited.
  after_fresh :
      (r : Role) (p q : List String) (m : Message F)
      → is_tool (record m { role = r }) ≡ false
      → after_role r p m ≡ after_role r q m
  after_fresh tool p q m h = cc
  after_fresh system p q m h = refl
  after_fresh user p q m h = refl
  after_fresh assistant p q m h = refl

  pub split_paired :
      (pending : List String) (m : Message F) (ms : List (Message F))
      → is_some (pending_from pending (m ∷ ms)) ≡ true
      → (q : List String) × (after_role m.role pending m ≡ some q)
        × (is_some (pending_from q ms) ≡ true)
  unfolding pending_from
  split_paired pending m ms h = elim (Option-cases (after_role m.role pending m)) [
    | inl e ↦ cc (rw (e, pending_from) at h)
    | inr (q, e) ↦ (q, e, rw (e, pending_from) at h)
  ]

  drop_tools-IsPaired :
      (pending : List String) (ms : List (Message F))
      → is_some (pending_from pending ms) ≡ true
      → IsPaired (drop_tools is_tool ms)
  unfolding pending_from drop_tools
  drop_tools-IsPaired pending [] h = refl
  drop_tools-IsPaired pending (m ∷ ms) h = elim (Bool-cases (is_tool m)) [
    | inl e ↦ let (q, _, k) = split_paired pending m ms h in rw e (drop_tools-IsPaired q ms k)
    | inr e ↦ rw e (rw (after_fresh m.role [] pending m e, pending_from) h)
  ]

  -- Dropping messages group by group keeps every call with its results.
  pub drop_until-IsPaired :
      (fuel : ℕ) (fits : List (Message F) → Bool) (ms : List (Message F))
      → IsPaired ms
      → IsPaired (drop_until is_tool fuel fits ms)
  unfolding drop_until pending_from
  drop_until-IsPaired zero fits ms h = h
  drop_until-IsPaired (suc fuel) fits [] h = refl
  drop_until-IsPaired (suc fuel) fits (m ∷ ms) h = elim (Bool-cases (fits (m ∷ ms))) [
    | inl e ↦ rw e h
    | inr e ↦
        let (q, _, k) = split_paired [] m ms h in
        rw e (drop_until-IsPaired fuel fits (drop_tools is_tool ms) (drop_tools-IsPaired q ms k))
  ]

  evict-IsPaired : (n : ℕ) (ms : List (Message F)) → IsPaired ms → IsPaired (evict n ms)
  unfolding evict
  evict-IsPaired n ms h =
      ground
        (arith, drop_until-IsPaired (length ms) (λ (l : List (Message F)). leb (length l) n) ms h)

  pending_from-append :
      (pending : List String) (ms ns : List (Message F))
      → pending_from pending (ms ++ ns)
        ≡ elim (pending_from pending ms) [ none ↦ none | some q ↦ pending_from q ns ]
  unfolding pending_from
  pending_from-append pending [] ns = refl
  pending_from-append pending (m ∷ ms) ns = elim (Option-cases (after_role m.role pending m)) [
    | inl e ↦ rw (e, pending_from)
    | inr (q, e) ↦ rw (e, pending_from) (pending_from-append q ms ns)
  ]

  kept_tool :
      (o : Option String) (pending : List String) (e : Entry F) (es : List (Entry F))
      → ((i : String) → o ≡ some i → awaited pending (some i) ≡ some i)
      → ((q : List String) → is_some (pending_from q (load_from q es)) ≡ true)
      → is_some (
          pending_from pending (elim (load_tool pending e o).1 [
            | none ↦ load_from (load_tool pending e o).0 es
            | some m ↦ m ∷ load_from (load_tool pending e o).0 es
          ]))
        ≡ true
  unfolding pending_from
  kept_tool none pending e es again rest = rest pending
  kept_tool (some i) pending e es again rest =
      ground (arith, again i refl, rest (discard i pending))

  kept_paired :
      (r : WireRole) (pending : List String) (e : Entry F) (es : List (Entry F))
      → ((q : List String) → is_some (pending_from q (load_from q es)) ≡ true)
      → is_some (
          pending_from pending (elim (load_as r pending e).1 [
            | none ↦ load_from (load_as r pending e).0 es
            | some m ↦ m ∷ load_from (load_as r pending e).0 es
          ]))
        ≡ true
  unfolding pending_from
  kept_paired (other _) pending e es rest = rest pending
  kept_paired (known system) pending e es rest = rest pending
  kept_paired (known user) pending e es rest = rest []
  kept_paired (known assistant) pending e es rest = rest _
  kept_paired (known tool) pending e es rest =
      kept_tool (awaited pending e.tool_call_id) pending e es (awaited_again pending e.tool_call_id)
        rest

  -- What `_load_messages` keeps is paired, whatever the list it reads.
  pub load_from-paired :
      (pending : List String) (es : List (Entry F))
      → is_some (pending_from pending (load_from pending es)) ≡ true
  unfolding load_from pending_from
  load_from-paired pending [] = refl
  load_from-paired pending (e ∷ es) = kept_paired e.role pending e es (λ q. load_from-paired q es)

  -- Whatever message list a stored session holds, the history that from_dict restores has no tool
  -- message without the call that it answers.
  pub from_dict-IsPaired :
      (max_messages : ℕ) (payload : Payload F) → IsPaired (from_dict max_messages payload).history
  unfolding from_dict
  from_dict-IsPaired max_messages payload =
      evict-IsPaired max_messages _ (load_from-paired [] (or_else payload.messages []))

  add-IsPaired :
      (mem : Memory F) (msg : Message F)
      → is_some (pending_from [] (mem.history ++ msg ∷ [])) ≡ true
      → IsPaired (add mem msg).history
  unfolding add
  add-IsPaired mem msg h = evict-IsPaired mem.max_messages (mem.history ++ msg ∷ []) h

  snoc_paired :
      (ms : List (Message F)) (m : Message F) (q r : List String)
      → pending_from [] ms ≡ some q
      → after_role m.role q m ≡ some r
      → is_some (pending_from [] (ms ++ m ∷ [])) ≡ true
  snoc_paired ms m q r e k =
      rw (pending_from-append [] ms (m ∷ []), e) (unfold pending_from in ground (arith, k))

  pub snoc_pending :
      (ms : List (Message F)) (m : Message F) (q r : List String)
      → pending_from [] ms ≡ some q
      → after_role m.role q m ≡ some r
      → pending_from [] (ms ++ m ∷ []) ≡ some r
  snoc_pending ms m q r e k =
      rw (pending_from-append [] ms (m ∷ []), e) (unfold pending_from in ground (arith, k))

  -- In a paired history a user or an assistant turn may always be added, eviction included: it
  -- stays paired.
  pub add_turn-IsPaired :
      (mem : Memory F) (content : Text) (calls : Option (List (ToolCall F)))
      → IsPaired mem.history
      → IsPaired (add_user mem content).history × IsPaired (add_assistant mem content calls).history
  unfolding add_user add_assistant
  add_turn-IsPaired mem content calls h = elim (Option-cases (pending_from [] mem.history)) [
    | inl e ↦ cc (rw e at h)
    | inr (q, e) ↦ (
      add-IsPaired mem _ (snoc_paired mem.history _ q [] e refl),
      add-IsPaired mem _ (snoc_paired mem.history _ q (declared_by calls) e refl),
    )
  ]

  -- A tool result with a call id that is not empty and that waits at the end of the history may be
  -- added, eviction included: the history stays paired.
  pub add_tool_result-IsPaired :
      (mem : Memory F) (name : String) (content : Text) (i : String) (waiting : List String)
      → pending_from [] mem.history ≡ some waiting
      → mem_str i waiting ≡ true
      → nonempty i ≡ true
      → IsPaired (add_tool_result mem name content (some i)).history
  unfolding add_tool_result
  add_tool_result-IsPaired mem name content i waiting e m n =
      add-IsPaired mem _ (snoc_paired mem.history _ waiting (discard i waiting) e (ground arith))
