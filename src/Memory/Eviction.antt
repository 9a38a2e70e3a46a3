-- ===== src/Memory/Eviction.antt =====
-- What `_evict_if_needed` leaves of the history, and the case that its comment rules out.
use eda_agent.Base.{
  ℕ, zero, suc, String, ◌+◌, ◌≤◌, ◌<◌, ◌≡◌, refl, ap, ◌∙◌, ◌⊎◌, inl, inr, Bool, true, false, ◌||◌,
  Option, none, some, List, [], ◌∷◌, ◌++◌, arith, leb, ◌==◌, length, length-append, Bool-cases,
  Text, leb→le, All,
}
use eda_agent.Memory.Groups.{
  drop_tools, drop_until, StartsGroup, drop_until-fits, drop_until-suffix, drop_until-longest,
}
use eda_agent.Memory.History.{Message, Memory, is_tool, evict, tool_message, add_tool_result}
use eda_agent.Memory.Pairing.{pending_from}

unanswered :
    (F : Type 0) (k : ℕ) (m : String) (d : Text) (j : Option String)
    → pending_from {F = F} [] (tool_message k m d j ∷ []) ≡ none
unfolding pending_from
unanswered F k m d none = refl
unanswered F k m d (some i) = ground arith

module _ {F : Type 0} where
  pub evict-suffix :
      (n : ℕ) (ms : List (Message F)) → (d : List (Message F)) × (ms ≡ d ++ evict n ms)
  unfolding evict
  evict-suffix n ms = elim (Bool-cases (n == 0 || leb (length ms) n)) [
    | inl e ↦ ([], rw e)
    | inr e ↦ rw e (drop_until-suffix is_tool (length ms) (λ l. leb (length l) n) ms)
  ]

  pub evict_fits : (n : ℕ) (ms : List (Message F)) → (n ≡ 0) ⊎ (length (evict n ms) ≤ n)
  unfolding evict
  evict_fits n ms = elim (Bool-cases (n == 0 || leb (length ms) n)) [
    | inl e ↦ rw e (ground arith)
    | inr e ↦
        rw e (fit (drop_until-fits is_tool (length ms) (λ l. leb (length l) n) ms (omega arith)))
  ]
    where
      fit : {r : List (Message F)} → (leb (length r) n ≡ true) ⊎ (r ≡ []) → (n ≡ 0) ⊎ (length r ≤ n)
      fit {r} (inl e) = inr (leb→le (length r) n e)
      fit (inr e) = inr (omega (arith, ap length e))

  -- After eviction a positive limit is kept, and what is left is the end of the history.
  pub evict_bounds :
      (max_n : ℕ) (ms : List (Message F))
      → 0 < max_n
      → (length (evict max_n ms) ≤ max_n) × ((d : List (Message F)) × (ms ≡ d ++ evict max_n ms))
  evict_bounds max_n ms h = (omega (arith, evict_fits max_n ms), evict-suffix max_n ms)

  -- Eviction removes no more groups than it must: every longer end of the history that starts with
  -- a message that is no tool message is over a limit that is set.
  pub evict-longest :
      (max_n : ℕ) (ms d s : List (Message F))
      → ms ≡ d ++ s
      → StartsGroup is_tool s
      → length (evict max_n ms) < length s
      → (0 < max_n) × (max_n < length s)
  unfolding evict
  evict-longest max_n ms d s p g h = elim (Bool-cases (max_n == 0 || leb (length ms) max_n)) [
    | inl e ↦
        let k : length ms < length s = rw e at h in
        absurd (omega (arith, ap length p, length-append d s))
    | inr e ↦
        let over = drop_until-longest is_tool (length ms) _ ms d s p (inr g) (rw e at h) in
        (ground arith, ground (arith, over))
  ]

  drop_tools-All :
      (ts us : List (Message F))
      → All (λ m. is_tool m ≡ true) ts
      → drop_tools is_tool (ts ++ us) ≡ drop_tools is_tool us
  unfolding drop_tools
  drop_tools-All [] us h = refl
  drop_tools-All (t ∷ ts) us h = rw h.0 (drop_tools-All ts us h.1)

  drop_until-nil :
      (fuel : ℕ) (fits : List (Message F) → Bool) → drop_until is_tool fuel fits [] ≡ []
  unfolding drop_until
  drop_until-nil zero fits = refl
  drop_until-nil (suc fuel) fits = refl

  over_limit :
      (max_n : ℕ) (turn : Message F) (ts : List (Message F)) (u : Message F)
      → length (turn ∷ ts) ≡ max_n
      → leb (length (turn ∷ ts ++ u ∷ [])) max_n ≡ false
  over_limit max_n turn ts u h =
      let k : length (ts ++ u ∷ []) ≡ length ts + 1 = length-append ts (u ∷ []) in ground arith

  evict_full :
      (max_n : ℕ) (turn : Message F) (ts : List (Message F)) (u : Message F)
      → All (λ t. is_tool t ≡ true) ts
      → is_tool u ≡ true
      → length (turn ∷ ts) ≡ max_n
      → evict max_n (turn ∷ (ts ++ u ∷ [])) ≡ []
  unfolding evict drop_until
  evict_full max_n turn ts u t k h =
      let gone : drop_tools is_tool (ts ++ u ∷ []) ≡ [] =
        drop_tools-All ts (u ∷ []) t ∙ unfold drop_tools in rw k in
      let over : leb (length (turn ∷ (ts ++ u ∷ []))) max_n ≡ false =
        over_limit max_n turn ts u h in
      ground (
        arith,
        gone,
        over,
        drop_until-nil (length (ts ++ u ∷ [])) (λ (l : List (Message F)). leb (length l) max_n),
      )

  evict_one : (max_n : ℕ) (u : Message F) → 0 < max_n → evict max_n (u ∷ []) ≡ u ∷ []
  unfolding evict
  evict_one max_n u h = ground arith

  emptied :
      (mem : Memory F) (turn : Message F) (ts : List (Message F)) (u : Message F)
      → mem.history ≡ turn ∷ ts
      → All (λ t. is_tool t ≡ true) ts
      → is_tool u ≡ true
      → length mem.history ≡ mem.max_messages
      → evict mem.max_messages (mem.history ++ u ∷ []) ≡ []
  emptied mem turn ts u e t k h =
      ap (λ ms. evict mem.max_messages (ms ++ u ∷ [])) e
      ∙ evict_full mem.max_messages turn ts u t k (omega (arith, ap length e))

  -- When one assistant turn and its results fill the history to its limit, the next result evicts
  -- the turn with all of its results, itself included, and the result after that one stands alone
  -- and answers nothing.
  pub orphan_after_eviction :
      (mem : Memory F) (turn : Message F) (results : List (Message F)) (n m : String) (c d : Text)
      (i j : Option String)
      → mem.history ≡ turn ∷ results
      → All (λ t. is_tool t ≡ true) results
      → length mem.history ≡ mem.max_messages
      → let after = (add_tool_result (add_tool_result mem n c i) m d j).history in
        (after ≡ tool_message mem.tool_result_max_chars m d j ∷ []) × (pending_from [] after ≡ none)
  unfolding add_tool_result
  orphan_after_eviction mem turn results n m c d i j e t h =
      let k = mem.tool_result_max_chars in
      let alone : (add_tool_result (add_tool_result mem n c i) m d j).history
          ≡ tool_message k m d j ∷ [] =
        rw (emptied mem turn results (tool_message k n c i) e t refl h)
          (evict_one mem.max_messages _ (omega (arith, ap length e))) in
      (alone, ap (pending_from []) alone ∙ unanswered F k m d j)
