-- ===== src/Json/Dumps.antt =====
-- `json.dumps` and the length of its UTF-8 encoding, as agent/memory.py and agent/tools.py use them.
-- `repr` prints a number with a point.
pub mod Ascii
use eda_agent.Base.{
  ℕ, zero, suc, String, ◌+◌, ◌-◌, ◌*◌, ◌/◌, ◌%◌, ◌≤◌, ◌<◌, ◌≡◌, refl, Bool, true, false, ◌||◌, List,
  [], ◌∷◌, ◌++◌, arith, ltb, ◌==◌, if◌then◌else◌, Text, codes, length, length-append, All,
}
use eda_agent.Json.{Value, Items, Fields}
use eda_agent.Json.Value.{null, bool, int, negint, float, str, arr, obj}
use eda_agent.Json.Items.{nil, cons}
use eda_agent.Json.Fields.{end, field}

hex_digit : ℕ → ℕ
hex_digit d = if ltb d 10 then b'0' + d else b'a' + d - 10

-- '\\u{0:04x}'.format(n)
hex4 : ℕ → Text
unfolding hex_digit
hex4 n =
    b'\\'
    ∷ b'u'
    ∷ hex_digit (n / 4096 % 16)
    ∷ hex_digit (n / 256 % 16)
    ∷ hex_digit (n / 16 % 16)
    ∷ hex_digit (n % 16)
    ∷ []

-- A character outside the printable ASCII range becomes one escape, or two above 0xffff.
escape_code : ℕ → Text
unfolding hex4
escape_code c =
    if ltb c 0x10000
    then hex4 c
    else hex4 (0xd800 + (c - 0x10000) / 1024 % 1024) ++ hex4 (0xdc00 + (c - 0x10000) % 1024)

escape : ℕ → Text
unfolding escape_code
escape c =
    if c == 34
    then codes "\\\""
    else if c == 92
    then codes "\\\\"
    else if c == 10
    then codes "\\n"
    else if c == 13
    then codes "\\r"
    else if c == 9
    then codes "\\t"
    else if c == 12
    then codes "\\f"
    else if c == 8
    then codes "\\b"
    else if ltb c 32 || ltb 126 c
    then escape_code c
    else c ∷ []

escapes : Text → Text
unfolding escape
escapes [] = []
escapes (c ∷ cs) = escape c ++ escapes cs

quote : Text → Text
unfolding escapes
quote s = 34 ∷ (escapes s ++ 34 ∷ [])

-- The decimal digits of a number, most significant first; `n` rounds are enough.
digits_above : ℕ → ℕ → Text → Text
digits_above zero n acc = acc
digits_above (suc f) n acc =
    let rest = digits_above f (n / 10) ((b'0' + n % 10) ∷ acc) in if n == 0 then acc else rest

unfoldable pub decimal : ℕ → Text
unfolding digits_above
decimal n = if n == 0 then b'0' ∷ [] else digits_above n n []

module _ {F : Type 0} (repr : F → Text) where
  unfoldable mutual
    unfolding quote decimal

    pub dumps : Value F → Text
    dumps null = codes "null"
    dumps (bool true) = codes "true"
    dumps (bool false) = codes "false"
    dumps (int n) = decimal n
    dumps (negint n) = b'-' ∷ decimal (suc n)
    dumps (float x) = repr x
    dumps (str s) = quote s
    dumps (arr nil) = codes "[]"
    dumps (arr (cons v vs)) = b'[' ∷ (dumps v ++ (dump_items vs ++ b']' ∷ []))
    dumps (obj end) = codes "{}"
    dumps (obj (field k v fs)) =
        b'{' ∷ (quote (codes k) ++ (codes ": " ++ (dumps v ++ (dump_fields fs ++ b'}' ∷ []))))

    pub dump_items : Items F → Text
    dump_items nil = []
    dump_items (cons v vs) = codes ", " ++ (dumps v ++ dump_items vs)

    pub dump_fields : Fields F → Text
    dump_fields end = []
    dump_fields (field k v fs) =
        codes ", " ++ (quote (codes k) ++ (codes ": " ++ (dumps v ++ dump_fields fs)))

-- len(text.encode("utf-8"))
unfoldable pub utf8_length : Text → ℕ
utf8_length [] = 0
utf8_length (c ∷ cs) =
    (if ltb c 0x80 then 1 else if ltb c 0x800 then 2 else if ltb c 0x10000 then 3 else 4)
    + utf8_length cs
