-- ===== src/Tail/Names.antt =====
-- icegres/src/tail.rs, `table_dir_name` and `parse_table_dir_name`: the directory of a table's tail. A
-- string is the list of its characters. `TableIdent::from_strs` is of another crate and a parameter.
pub mod RoundTrip
use icegres.Prelude.{
  ℕ, zero, suc, ◌+◌, ◌-◌, ◌*◌, ◌≤◌, ◌<◌, ◌≡◌, ◌≢◌, refl, sym, ap, ◌∙◌, Option, none, some, List, [],
  ◌∷◌, ◌++◌, Bool, true, false, not, ◌&&◌, ◌||◌, length, map, All, arith, leb, ltb, ◌==◌,
  if◌then◌else◌, if_cases, Bool-cases, ◌⊎◌, inl, inr,
}
use icegres.Prelude.Results.{Result, ok, err, ◌>>=◌, >>=-eq-ok, ok_injective, err-ne-ok}

abbrev pub Str : Type 0
Str = List ℕ

abbrev pub dot : ℕ
dot = 46

abbrev pub percent : ℕ
percent = 37

-- The one error: a NUL byte in this component.
pub data NameError : Type 0 where
  nul_byte : Str → NameError

-- What is pushed for a character.
abbrev pub encode_char : ℕ → Str
encode_char c =
    if c == percent
    then 37 ∷ 50 ∷ 53 ∷ []
    else if c == dot
    then 37 ∷ 50 ∷ 101 ∷ []
    else if c == 47
    then 37 ∷ 50 ∷ 102 ∷ []
    else c ∷ []

abbrev pub encode_chars : Str → Str → Result NameError Str
encode_chars part [] = ok []
encode_chars part (c ∷ cs) =
    if c == 0
    then err (nul_byte part)
    else (encode_chars part cs >>= λ out. ok (encode_char c ++ out))

unfoldable pub encode_component : Str → Result NameError Str
encode_component part = encode_chars part part

-- `char::to_digit(16)`.
abbrev pub hex_digit : ℕ → Option ℕ
hex_digit c =
    if leb 48 c && leb c 57
    then some (c - 48)
    else if leb 97 c && leb c 102
    then some (c - 87)
    else if leb 65 c && leb c 70
    then some (c - 55)
    else none

abbrev pub two_digits : Option ℕ → Option ℕ → Option ℕ
two_digits (some a) (some b) = some (16 * a + b)
two_digits _ _ = none

-- `u8::from_str_radix(hex, 16)` of two characters; it takes a plus sign in front.
abbrev pub hex_byte : ℕ → ℕ → Option ℕ
hex_byte a b = if a == 43 then hex_digit b else two_digits (hex_digit a) (hex_digit b)

abbrev pub push_char : Option ℕ → Option Str → Option Str
push_char (some c) (some out) = some (c ∷ out)
push_char _ _ = none

unfoldable pub decode_component : Str → Option Str
decode_component [] = some []
decode_component (c ∷ []) = if c == percent then none else some (c ∷ [])
decode_component (c ∷ a ∷ []) =
    let rest = decode_component (a ∷ []) in if c == percent then none else push_char (some c) rest
decode_component (c ∷ a ∷ b ∷ cs) =
    let plain = decode_component (a ∷ b ∷ cs) in
    let rest = decode_component cs in
    if c == percent then push_char (hex_byte a b) rest else push_char (some c) plain

-- `parts.join(".")`.
abbrev pub join : List Str → Str
join [] = []
join (p ∷ []) = p
join (p ∷ q ∷ ps) = p ++ (dot ∷ join (q ∷ ps))

abbrev pub cons_front : ℕ → List Str → List Str
cons_front c [] = (c ∷ []) ∷ []
cons_front c (p ∷ ps) = (c ∷ p) ∷ ps

-- `name.split('.')`.
abbrev pub split_dots : Str → List Str
split_dots [] = [] ∷ []
split_dots (c ∷ cs) = let rest = split_dots cs in if c == dot then [] ∷ rest else cons_front c rest

pub record TableIdent : Type 0 where
  pub namespace : List Str
  pub name : Str

abbrev pub encode_all : List Str → Result NameError (List Str)
encode_all [] = ok []
encode_all (p ∷ ps) = encode_component p >>= λ e. encode_all ps >>= λ es. ok (e ∷ es)

unfoldable pub table_dir_name : TableIdent → Result NameError Str
unfolding encode_component
table_dir_name ident = encode_all ident.namespace >>= λ parts.
    encode_component ident.name >>= λ last. ok (join (parts ++ (last ∷ [])))

abbrev pub push_part : Option Str → Option (List Str) → Option (List Str)
push_part (some p) (some ps) = some (p ∷ ps)
push_part _ _ = none

abbrev pub decode_all : List Str → Option (List Str)
decode_all [] = some []
decode_all (p ∷ ps) = push_part (decode_component p) (decode_all ps)

abbrev pub has_empty : List Str → Bool
has_empty [] = false
has_empty ([] ∷ ps) = true
has_empty ((c ∷ p) ∷ ps) = has_empty ps

abbrev pub checked_parts : (List Str → Option TableIdent) → Option (List Str) → Option TableIdent
checked_parts from_strs none = none
checked_parts from_strs (some parts) =
    if ltb (length parts) 2 || has_empty parts then none else from_strs parts

unfoldable pub parse_table_dir_name : (List Str → Option TableIdent) → Str → Option TableIdent
unfolding decode_component
parse_table_dir_name from_strs name = checked_parts from_strs (decode_all (split_dots name))
