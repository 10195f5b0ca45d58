-- ===== src/Tail/Names/RoundTrip.antt =====
-- The directory name of a table names that table and no other.
use icegres.Prelude.{
  ℕ, ◌<◌, ◌≡◌, refl, sym, ap, ◌∙◌, Option, none, some, List, [], ◌∷◌, ◌++◌, false, length, All,
  arith, ltb, ◌==◌, if_cases, length-append, All-append, subst,
}
use icegres.Prelude.Results.{Result, ok, err, ◌>>=◌, >>=-eq-ok, ok_injective, err-ne-ok}
use icegres.Prelude.Maps.{some_eq}
use icegres.Tail.Names.{
  Str, dot, percent, NameError, nul_byte, encode_char, encode_chars, encode_component,
  decode_component, push_char, join, split_dots, TableIdent, encode_all, table_dir_name, decode_all,
  push_part, has_empty, checked_parts, parse_table_dir_name,
}

abbrev IsDotless : Str → Type 0
IsDotless s = All (λ c. (c == dot) ≡ false) s

plain_char :
    (c : ℕ) (out : Str)
    → (c == percent) ≡ false
    → decode_component (c ∷ out) ≡ push_char (some c) (decode_component out)
unfolding decode_component
plain_char c [] h = rw h refl
plain_char c (a ∷ []) h = rw h refl
plain_char c (a ∷ b ∷ cs) h = rw h refl

decode-encode_char :
    (c : ℕ) (out : Str)
    → decode_component (encode_char c ++ out) ≡ push_char (some c) (decode_component out)
unfolding decode_component
decode-encode_char c out =
    if_cases P (c == percent) _ _ (λ e. known 37 c out (ground arith) refl)
      λ p.
        if_cases P (c == dot) _ _ (λ e. known 46 c out (ground arith) refl)
          λ d.
            if_cases P (c == 47) _ _ (λ e. known 47 c out (ground arith) refl)
              (λ _. plain_char c out p)
  where
    P : Str → Type 0
    P s = decode_component (s ++ out) ≡ push_char (some c) (decode_component out)

    known :
        (k c : ℕ) (out : Str) {x : Option Str}
        → k ≡ c
        → x ≡ push_char (some k) (decode_component out)
        → x ≡ push_char (some c) (decode_component out)
    known k c out e h = h ∙ ap (λ i. push_char (some i) (decode_component out)) e

encode_char-IsDotless : (c : ℕ) → IsDotless (encode_char c)
encode_char-IsDotless c =
    if_cases IsDotless (c == percent) _ _ (λ _. (refl, (refl, (refl, tt))))
      λ _.
        if_cases IsDotless (c == dot) _ _ (λ _. (refl, (refl, (refl, tt))))
          λ d. if_cases IsDotless (c == 47) _ _ (λ _. (refl, (refl, (refl, tt)))) (λ _. (d, tt))

encode_chars-ok :
    (part p e : Str) → encode_chars part p ≡ ok e → (decode_component e ≡ some p) × IsDotless e
unfolding decode_component
encode_chars-ok part [] e h = subst P (ok_injective h) (refl, tt)
  where
    P : Str → Type 0
    P e = (decode_component e ≡ some []) × IsDotless e
encode_chars-ok part (c ∷ cs) e h =
    if_cases (λ (x : Result NameError Str). x ≡ ok e → P e) (c == 0) (err (nul_byte part)) _
      (λ _ k. absurd (err-ne-ok k))
      (λ _ k.
        let (out, first, then_ok) =
          >>=-eq-ok (encode_chars part cs) (λ out. ok (encode_char c ++ out)) k in
        let (d, n) = encode_chars-ok part cs out first in
        subst P (ok_injective then_ok) (
          decode-encode_char c out ∙ rw d refl,
          All-append (λ c. (c == dot) ≡ false) (encode_char c) out (encode_char-IsDotless c) n,
        ))
      h
  where
    P : Str → Type 0
    P e = (decode_component e ≡ some (c ∷ cs)) × IsDotless e

split_dots-append : (p s : Str) → IsDotless p → split_dots (p ++ (dot ∷ s)) ≡ p ∷ split_dots s
split_dots-append [] s h = refl
split_dots-append (c ∷ p) s (d, h) = rw (d, split_dots-append p s h) refl

split_dots-dotless : (p : Str) → IsDotless p → split_dots p ≡ p ∷ []
split_dots-dotless [] h = refl
split_dots-dotless (c ∷ p) (d, h) = rw (d, split_dots-dotless p h) refl

split_dots-join :
    (p : Str) (ps : List Str) → All IsDotless (p ∷ ps) → split_dots (join (p ∷ ps)) ≡ p ∷ ps
split_dots-join p [] (h, _) = split_dots-dotless p h
split_dots-join p (q ∷ ps) (h, k) =
    split_dots-append p (join (q ∷ ps)) h ∙ ap (λ t. p ∷ t) (split_dots-join q ps k)

encode_all-ok :
    (ps es : List Str) → encode_all ps ≡ ok es → (decode_all es ≡ some ps) × All IsDotless es
unfolding encode_component
encode_all-ok [] es h = subst P (ok_injective h) (refl, tt)
  where
    P : List Str → Type 0
    P es = (decode_all es ≡ some []) × All IsDotless es
encode_all-ok (p ∷ ps) es h =
    let (e, first, rest) =
      >>=-eq-ok (encode_chars p p) (λ e. encode_all ps >>= λ es. ok (e ∷ es)) h in
    let (out, others, last) = >>=-eq-ok (encode_all ps) (λ es. ok (e ∷ es)) rest in
    let (d, n) = encode_chars-ok p p e first in
    let (ds, ns) = encode_all-ok ps out others in
    subst P (ok_injective last) (rw (d, ds) refl, (n, ns))
  where
    P : List Str → Type 0
    P es = (decode_all es ≡ some (p ∷ ps)) × All IsDotless es

push_part-append :
    (o : Option Str) (os os' : Option (List Str)) (p : Str) {ps : List Str}
    → ((xs : List Str) → os ≡ some xs → os' ≡ some (xs ++ (p ∷ [])))
    → push_part o os ≡ some ps
    → push_part o os' ≡ some (ps ++ (p ∷ []))
push_part-append none os os' p rest h = cc
push_part-append (some x) none os' p rest h = cc
push_part-append (some x) (some xs) os' p rest h =
    rw (rest xs refl) (ap (λ t. some (t ++ (p ∷ []))) (some_eq h))

decode_all-append :
    (es : List Str) (e : Str) (ps : List Str) (p : Str)
    → decode_all es ≡ some ps
    → decode_component e ≡ some p
    → decode_all (es ++ (e ∷ [])) ≡ some (ps ++ (p ∷ []))
decode_all-append [] e ps p h k =
    let one : push_part (decode_component e) (some []) ≡ some (p ∷ []) = rw k refl in
    one ∙ ap (λ t. some (t ++ (p ∷ []))) (some_eq h)
decode_all-append (x ∷ es) e ps p h k =
    push_part-append (decode_component x) (decode_all es) (decode_all (es ++ (e ∷ []))) p
      (λ xs at. decode_all-append es e xs p at k) h

split_dots-joined :
    (es : List Str) (e : Str)
    → All IsDotless es
    → IsDotless e
    → split_dots (join (es ++ (e ∷ []))) ≡ es ++ (e ∷ [])
split_dots-joined [] e h k = split_dots-join e [] (k, tt)
split_dots-joined (x ∷ es) e (hx, h) k =
    split_dots-join x (es ++ (e ∷ [])) (hx, All-append IsDotless es (e ∷ []) h (k, tt))

-- The directory name of a table with a namespace, none of whose parts is empty, where it has one,
-- parses back to the table, if `from_strs` takes the last part for the name.
pub parse_table_dir_name-table_dir_name :
    (from_strs : List Str → Option TableIdent) (ident : TableIdent) (dir : Str)
    → ((i : TableIdent) → from_strs (i.namespace ++ (i.name ∷ [])) ≡ some i)
    → 0 < length ident.namespace
    → has_empty (ident.namespace ++ (ident.name ∷ [])) ≡ false
    → table_dir_name ident ≡ ok dir
    → parse_table_dir_name from_strs dir ≡ some ident
unfolding table_dir_name parse_table_dir_name encode_component
parse_table_dir_name-table_dir_name from_strs ident dir law some_space no_empty h =
    let (es, spaces, rest) =
      >>=-eq-ok (encode_all ident.namespace)
        (λ parts. encode_component ident.name >>= λ last. ok (join (parts ++ (last ∷ [])))) h in
    let (e, named, joined) =
      >>=-eq-ok (encode_component ident.name) (λ last. ok (join (es ++ (last ∷ [])))) rest in
    let (ds, ns) = encode_all-ok ident.namespace es spaces in
    let (d, n) = encode_chars-ok ident.name ident.name e named in
    let parts = ident.namespace ++ (ident.name ∷ []) in
    let decoded : decode_all (split_dots dir) ≡ some parts =
      ap (λ x. decode_all (split_dots x)) (sym (ok_injective joined))
      ∙ ap decode_all (split_dots-joined es e ns n)
      ∙ decode_all-append es e ident.namespace ident.name ds d in
    let enough : ltb (length parts) 2 ≡ false =
      ground (arith, length-append ident.namespace (ident.name ∷ [])) in
    ap (checked_parts from_strs) decoded ∙ rw (enough, no_empty) (law ident)
