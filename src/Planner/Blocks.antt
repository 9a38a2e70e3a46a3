-- ===== src/Planner/Blocks.antt =====
-- The length of a text is enough fuel to find its tool calls.
use eda_agent.Base.{
  ℕ, zero, suc, ◌+◌, ◌≤◌, ◌≡◌, refl, ap, Bool, true, false, Option, none, some, List, [], ◌∷◌, ◌++◌,
  if◌then◌else◌, ◌==◌, Text, codes, length, arith,
}
use eda_agent.Planner.Reading.{
  after_prefix, split_at, strip_text, closed_block, opened_block, tool_call_blocks,
}

-- What is left has at least `n` code points less than `m`.
abbrev Left : ℕ → ℕ → Option Text → Type 0
Left n m none = Unit
Left n m (some r) = length r + n ≤ m

abbrev Short : ℕ → ℕ → Option (Text × Text) → Type 0
Short n m none = Unit
Short n m (some (a, b)) = length b + n ≤ m

Left-if :
    (b : Bool) (n m : ℕ) (o : Option Text)
    → Left n m o
    → Left (suc n) (suc m) (if b then o else none)
Left-if true n m none h = tt
Left-if true n m (some r) h = omega (arith, h)
Left-if false n m o h = tt

after_prefix-Left : (p t : Text) → Left (length p) (length t) (after_prefix p t)
unfolding after_prefix
after_prefix-Left [] t = omega arith
after_prefix-Left (p ∷ ps) [] = tt
after_prefix-Left (p ∷ ps) (c ∷ t) =
    Left-if (p == c) (length ps) (length t) (after_prefix ps t) (after_prefix-Left ps t)

split_here :
    (n m c : ℕ) (o : Option Text) (later : Option (Text × Text))
    → Left n (suc m) o
    → Short n m later
    → Short n (suc m) (elim o as (λ x. Option (Text × Text)) [
      | some rest ↦ some ([], rest)
      | none ↦ elim later as (λ x. Option (Text × Text)) [
        | none ↦ none
        | some (a, b) ↦ some (c ∷ a, b)
      ]
    ])
split_here n m c (some rest) later h k = h
split_here n m c none none h k = tt
split_here n m c none (some (a, b)) h k = omega (arith, k)

split_end :
    (n : ℕ) (o : Option Text)
    → Left n 0 o
    → Short n 0
        (elim o as (λ x. Option (Text × Text)) [ none ↦ none | some rest ↦ some ([], rest) ])
split_end n none h = tt
split_end n (some rest) h = h

split_at-Short : (needle t : Text) → Short (length needle) (length t) (split_at needle t)
unfolding split_at
split_at-Short needle [] =
    split_end (length needle) (after_prefix needle []) (after_prefix-Left needle [])
split_at-Short needle (c ∷ t) =
    split_here (length needle) (length t) c (after_prefix needle (c ∷ t)) (split_at needle t)
      (after_prefix-Left needle (c ∷ t)) (split_at-Short needle t)

closed_enough :
    (fuel : ℕ) (t before inner : Text) (o : Option (Text × Text))
    → ((after : Text)
        → length after ≤ fuel
        → tool_call_blocks (suc fuel) after ≡ tool_call_blocks fuel after)
    → Short 12 (length inner) o
    → length inner ≤ fuel
    → closed_block (tool_call_blocks (suc fuel)) t before o
      ≡ closed_block (tool_call_blocks fuel) t before o
closed_enough fuel t before inner none ih k h = refl
closed_enough fuel t before inner (some (block, after)) ih k h =
    ap (λ (r : List Text × Text). (strip_text block ∷ r.0, before ++ r.1))
      (ih after (omega (arith, k, h)))

opened_enough :
    (fuel : ℕ) (t : Text) (o : Option (Text × Text))
    → ((after : Text)
        → length after ≤ fuel
        → tool_call_blocks (suc fuel) after ≡ tool_call_blocks fuel after)
    → length t ≤ suc fuel
    → Short 11 (length t) o
    → opened_block (tool_call_blocks (suc fuel)) t o ≡ opened_block (tool_call_blocks fuel) t o
opened_enough fuel t none ih h k = refl
opened_enough fuel t (some (before, inner)) ih h k =
    closed_enough fuel t before inner (split_at (codes "</tool_call>") inner) ih
      (split_at-Short (codes "</tool_call>") inner) (omega (arith, h, k))

-- More fuel than the length of the text finds nothing more.
pub blocks_enough :
    (fuel : ℕ) (t : Text)
    → length t ≤ fuel
    → tool_call_blocks (suc fuel) t ≡ tool_call_blocks fuel t
unfolding tool_call_blocks
blocks_enough zero [] h = refl
blocks_enough zero (c ∷ t) h = grind (arith, h)
blocks_enough (suc fuel) t h =
    opened_enough fuel t (split_at (codes "<tool_call>") t) (blocks_enough fuel) h
      (split_at-Short (codes "<tool_call>") t)
