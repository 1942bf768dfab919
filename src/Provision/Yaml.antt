-- ===== src/Provision/Yaml.antt =====
-- `yamlQuote` of internal/provision/cloudinit.go over the runes of a text, and a reader of YAML's
-- double-quoted scalars to hold it against.
use mathlib.Core.List.{append_assoc}
use kite_kvm.Prelude.{
  Bool, List, Option, [], arith, if◌then◌else◌, leb, ltb, none, refl, some, ℕ, ◌%◌, ◌&&◌, ◌*◌, ◌++◌,
  ◌+◌, ◌-◌, ◌/◌, ◌<◌, ◌==◌, ◌||◌, ◌∷◌, ◌≡◌, ==_iff, Bool-cases, inl, inr, All, false, ◌≤◌,
}

-- '"', '\\' and the letters of the escapes
abbrev quote_mark : ℕ
quote_mark = 34

abbrev backslash : ℕ
backslash = 92

-- one hexadecimal digit of %02x
unfoldable pub hex_digit : ℕ → ℕ
hex_digit d = if ltb d 10 then b'0' + d else b'a' + (d - 10)

-- r < 0x20 || r == 0x7f
abbrev pub is_control : ℕ → Bool
is_control r = ltb r 32 || r == 127

-- one round of the loop's switch
unfoldable pub escape_rune : ℕ → List ℕ
escape_rune r =
    if r == 92
    then 92 ∷ 92 ∷ []
    else if r == 34
    then 92 ∷ 34 ∷ []
    else if r == 10
    then 92 ∷ b'n' ∷ []
    else if r == 13
    then 92 ∷ b'r' ∷ []
    else if r == 9
    then 92 ∷ b't' ∷ []
    else if is_control r
    then 92 ∷ b'x' ∷ hex_digit (r / 16) ∷ hex_digit (r % 16) ∷ []
    else r ∷ []

unfoldable pub escape : List ℕ → List ℕ
escape [] = []
escape (r ∷ s) = escape_rune r ++ escape s

unfoldable pub yaml_quote : List ℕ → List ℕ
yaml_quote s = 34 ∷ (escape s ++ 34 ∷ [])

-- Where a reader of a double-quoted scalar stands: in plain text, behind a backslash, behind `\x`,
-- or behind its first digit.
data Mode : Type 0 where
  plain escaped hex : Mode
  hex_low : ℕ → Mode

hex_value : ℕ → Option ℕ
hex_value c =
    if leb b'0' c && leb c b'9'
    then some (c - b'0')
    else if leb b'a' c && leb c b'f'
    then some (c - b'a' + 10)
    else none

abbrev push : ℕ → Option (List ℕ × List ℕ) → Option (List ℕ × List ℕ)
push c none = none
push c (some (s, rest)) = some (c ∷ s, rest)

-- What a reader refuses although it is not below U+0080: the control characters U+0080 to U+009F, the
-- separators of lines and paragraphs, surrogates, and what is no character. YAML does not count them
-- as printable, or folds them as line breaks.
abbrev pub is_beyond : ℕ → Bool
is_beyond r =
    (leb 128 r && leb r 159)
    || (r == 8232 || r == 8233)
    || (leb 55296 r && leb r 57343)
    || (leb 65534 r && leb r 65535)
    || ltb 1114111 r

-- YAML 1.2: the escapes `\\ \" \n \r \t \xXX`, and no character in the text that is refused. The
-- result is the text of the scalar and what follows its closing mark.
read : Mode → List ℕ → Option (List ℕ × List ℕ)
read mode [] = none
read plain (c ∷ s) =
    let more = read plain s in
    let behind = read escaped s in
    if c == 34
    then some ([], s)
    else if c == 92
    then behind
    else if is_control c || is_beyond c
    then none
    else push c more
read escaped (c ∷ s) =
    let more = read plain s in
    let digits = read hex s in
    if c == 92
    then push 92 more
    else if c == 34
    then push 34 more
    else if c == b'n'
    then push 10 more
    else if c == b'r'
    then push 13 more
    else if c == b't'
    then push 9 more
    else if c == b'x'
    then digits
    else none
read hex (c ∷ s) = elim (hex_value c) [ none ↦ none | some high ↦ read (hex_low high) s ]
read (hex_low high) (c ∷ s) =
    let more = read plain s in
    elim (hex_value c) [ none ↦ none | some low ↦ push (high * 16 + low) more ]

-- a scalar, from its opening mark
pub read_scalar : List ℕ → Option (List ℕ × List ℕ)
read_scalar [] = none
read_scalar (c ∷ s) = if c == 34 then read plain s else none

hex_value-hex_digit : (d : ℕ) → d < 16 → hex_value (hex_digit d) ≡ some d
unfolding hex_value hex_digit
hex_value-hex_digit d h = ground arith

-- the reader takes back what one rune was written as
read-escape_rune :
    (r : ℕ) (s : List ℕ)
    → is_beyond r ≡ false
    → read plain (escape_rune r ++ s) ≡ push r (read plain s)
unfolding read escape_rune
read-escape_rune r s inside = elim (Bool-cases (r == 92)) [
  | inl mark92 ↦ let e : r ≡ 92 = (==_iff r 92).0 mark92 in rw e
  | inr not0 ↦ elim (Bool-cases (r == 34)) [
    | inl mark34 ↦ let e : r ≡ 34 = (==_iff r 34).0 mark34 in rw e
    | inr not1 ↦ elim (Bool-cases (r == 10)) [
      | inl line ↦ let e : r ≡ 10 = (==_iff r 10).0 line in rw e
      | inr not2 ↦ elim (Bool-cases (r == 13)) [
        | inl carriage ↦ let e : r ≡ 13 = (==_iff r 13).0 carriage in rw e
        | inr not3 ↦ elim (Bool-cases (r == 9)) [
          | inl tab ↦ let e : r ≡ 9 = (==_iff r 9).0 tab in rw e
          | inr not4 ↦ elim (Bool-cases (is_control r)) [
            | inl control ↦
                let small : r < 128 = ground (arith, control) in
                let whole : r / 16 * 16 + r % 16 ≡ r = omega arith in
                let high = hex_value-hex_digit (r / 16) (omega arith) in
                let low = hex_value-hex_digit (r % 16) (omega arith) in
                rw (not0, not1, not2, not3, not4)
                  (rw control (rw (high, read) (rw (low, read) (rw whole))))
            | inr printed ↦
                rw (not0, not1, not2, not3, not4) (ground (arith, not0, not1, printed, inside))
          ]
        ]
      ]
    ]
  ]
]

read-escape :
    (s rest : List ℕ)
    → All (λ r. is_beyond r ≡ false) s
    → read plain (escape s ++ 34 ∷ rest) ≡ some (s, rest)
unfolding escape read
read-escape [] rest inside = refl
read-escape (r ∷ s) rest inside =
    rw append_assoc
      (rw (read-escape_rune r (escape s ++ 34 ∷ rest) inside.0) (rw (read-escape s rest inside.1)))

-- A text without control characters from U+0080 on, separators of lines or paragraphs, surrogates and
-- what is no character, whatever else it holds: a reader of double-quoted scalars reads the quoted
-- text back as that text, and stands behind it.
pub read_scalar-yaml_quote :
    (s rest : List ℕ)
    → All (λ r. is_beyond r ≡ false) s
    → read_scalar (yaml_quote s ++ rest) ≡ some (s, rest)
unfolding read_scalar yaml_quote
read_scalar-yaml_quote s rest inside = rw append_assoc (read-escape s rest inside)

-- A control character from U+0080 on is not escaped, and the reader refuses the quoted text.
pub read_scalar-unescaped :
    (r : ℕ) (rest : List ℕ)
    → (128 ≤ r) × (r ≤ 159)
    → read_scalar (yaml_quote (r ∷ []) ++ rest) ≡ none
unfolding read_scalar yaml_quote read escape escape_rune
read_scalar-unescaped r rest h = ground (arith, h.0, h.1)
