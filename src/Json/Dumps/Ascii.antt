-- ===== src/Json/Dumps/Ascii.antt =====
-- The output of `json.dumps` is ASCII, so its UTF-8 encoding has a byte for each character.
use eda_agent.Base.{
  codes, Bool, ◌-◌, ◌||◌, ltb, if◌then◌else◌, All-if, ℕ, zero, suc, ◌+◌, ◌%◌, ◌/◌, ◌<◌, ◌≡◌, refl,
  true, false, [], ◌∷◌, ◌++◌, arith, Text, length, All, All-append, ◌==◌, Bool-cases, inl, inr,
}
use eda_agent.Json.{Value, Items, Fields}
use eda_agent.Json.Value.{null, bool, int, negint, float, str, arr, obj}
use eda_agent.Json.Items.{nil, cons}
use eda_agent.Json.Fields.{end, field}
use eda_agent.Json.Dumps.{
  hex_digit, hex4, escape_code, escape, escapes, quote, digits_above, decimal, dumps, dump_items,
  dump_fields, utf8_length,
}

abbrev pub IsAscii : Text → Type 0
IsAscii = All (λ c. c < 0x80)

hex_digit-lt : (d : ℕ) → d < 16 → hex_digit d < 0x80
unfolding hex_digit
hex_digit-lt d h = ground arith

hex4-IsAscii : (n : ℕ) → IsAscii (hex4 n)
unfolding hex4
hex4-IsAscii n =
    let digit = λ (d : ℕ). hex_digit-lt (d % 16) (omega arith) in
    (
      omega arith,
      (omega arith, (digit (n / 4096), (digit (n / 256), (digit (n / 16), (digit n, tt))))),
    )

IsAscii-append : (s t : Text) → IsAscii s → IsAscii t → IsAscii (s ++ t)
IsAscii-append = All-append (λ c. c < 0x80)

IsAscii-if : (b : Bool) (s t : Text) → IsAscii s → IsAscii t → IsAscii (if b then s else t)
IsAscii-if = All-if (λ c. c < 0x80)

hex4_pair-IsAscii : (m n : ℕ) → IsAscii (hex4 m ++ hex4 n)
hex4_pair-IsAscii m n = IsAscii-append (hex4 m) (hex4 n) (hex4-IsAscii m) (hex4-IsAscii n)

escape_code-IsAscii : (c : ℕ) → IsAscii (escape_code c)
unfolding escape_code
escape_code-IsAscii c =
    IsAscii-if (ltb c 0x10000) _ _ (hex4-IsAscii c)
      (hex4_pair-IsAscii (0xd800 + (c - 0x10000) / 1024 % 1024) (0xdc00 + (c - 0x10000) % 1024))

plain-IsAscii : (c : ℕ) → (ltb c 32 || ltb 126 c) ≡ false → c < 0x80
plain-IsAscii c h = ground arith

visible-IsAscii : (c : ℕ) → IsAscii (if ltb c 32 || ltb 126 c then escape_code c else c ∷ [])
visible-IsAscii c = elim (Bool-cases (ltb c 32 || ltb 126 c)) [
  | inl e ↦ rw e (escape_code-IsAscii c)
  | inr e ↦ rw e (plain-IsAscii c e, tt)
]

escape-IsAscii : (c : ℕ) → IsAscii (escape c)
unfolding escape
escape-IsAscii c = IsAscii-if (c == 34) _ _ (omega arith) (
    IsAscii-if (c == 92) _ _ (omega arith) (
      IsAscii-if (c == 10) _ _ (omega arith) (
        IsAscii-if (c == 13) _ _ (omega arith) (
          IsAscii-if (c == 9) _ _ (omega arith) (
            IsAscii-if (c == 12) _ _ (omega arith)
              (IsAscii-if (c == 8) _ _ (omega arith) (visible-IsAscii c)))))))

escapes-IsAscii : (s : Text) → IsAscii (escapes s)
unfolding escapes
escapes-IsAscii [] = tt
escapes-IsAscii (c ∷ cs) =
    IsAscii-append (escape c) (escapes cs) (escape-IsAscii c) (escapes-IsAscii cs)

utf8_length-of_ascii : (s : Text) → IsAscii s → utf8_length s ≡ length s
unfolding utf8_length
utf8_length-of_ascii [] h = refl
utf8_length-of_ascii (c ∷ cs) h = ground (arith, utf8_length-of_ascii cs h.1)

quote-IsAscii : (s : Text) → IsAscii (quote s)
unfolding quote
quote-IsAscii s = (omega arith, IsAscii-append (escapes s) _ (escapes-IsAscii s) (omega arith))

digits_above-IsAscii : (f n : ℕ) (acc : Text) → IsAscii acc → IsAscii (digits_above f n acc)
unfolding digits_above
digits_above-IsAscii zero n acc h = h
digits_above-IsAscii (suc f) n acc h =
    IsAscii-if (n == 0) _ _ h (digits_above-IsAscii f (n / 10) _ (omega arith, h))

decimal-IsAscii : (n : ℕ) → IsAscii (decimal n)
unfolding decimal
decimal-IsAscii n = IsAscii-if (n == 0) _ _ (omega arith) (digits_above-IsAscii n n [] tt)

module _ {F : Type 0} (repr : F → Text) (printable : (x : F) → IsAscii (repr x)) where
  mutual
    unfolding dumps

    dumps-IsAscii : (v : Value F) → IsAscii (dumps repr v)
    dumps-IsAscii null = omega arith
    dumps-IsAscii (bool true) = omega arith
    dumps-IsAscii (bool false) = omega arith
    dumps-IsAscii (int n) = decimal-IsAscii n
    dumps-IsAscii (negint n) = (omega arith, decimal-IsAscii (suc n))
    dumps-IsAscii (float x) = printable x
    dumps-IsAscii (str s) = quote-IsAscii s
    dumps-IsAscii (arr nil) = omega arith
    dumps-IsAscii (arr (cons v vs)) = (
      omega arith,
      IsAscii-append (dumps repr v) _ (dumps-IsAscii v)
          (IsAscii-append (dump_items repr vs) _ (dump_items-IsAscii vs) (omega arith)),
    )
    dumps-IsAscii (obj end) = omega arith
    dumps-IsAscii (obj (field k v fs)) = (
      omega arith,
      IsAscii-append (quote (codes k)) _ (quote-IsAscii (codes k)) (
        omega arith,
        (
          omega arith,
          IsAscii-append (dumps repr v) _ (dumps-IsAscii v)
              (IsAscii-append (dump_fields repr fs) _ (dump_fields-IsAscii fs) (omega arith)),
        ),
      ),
    )

    dump_items-IsAscii : (vs : Items F) → IsAscii (dump_items repr vs)
    dump_items-IsAscii nil = tt
    dump_items-IsAscii (cons v vs) = (
      omega arith,
      (omega arith, IsAscii-append (dumps repr v) _ (dumps-IsAscii v) (dump_items-IsAscii vs)),
    )

    dump_fields-IsAscii : (fs : Fields F) → IsAscii (dump_fields repr fs)
    dump_fields-IsAscii end = tt
    dump_fields-IsAscii (field k v fs) = (
      omega arith,
      (
        omega arith,
        IsAscii-append (quote (codes k)) _ (quote-IsAscii (codes k)) (
          omega arith,
          (omega arith, IsAscii-append (dumps repr v) _ (dumps-IsAscii v) (dump_fields-IsAscii fs)),
        ),
      ),
    )

  -- The UTF-8 encoding of a printed value has as many bytes as the text has characters.
  pub utf8_length-dumps : (v : Value F) → utf8_length (dumps repr v) ≡ length (dumps repr v)
  utf8_length-dumps v = utf8_length-of_ascii (dumps repr v) (dumps-IsAscii v)
