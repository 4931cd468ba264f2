-- ===== src/Msc/Targets.antt =====
-- Cue numbers, executors and pages in the messages of crates/cuepool-protocols/src/msc/mod.rs.
use cue_pool.Base.{
  ℕ, suc, ◌+◌, ◌-◌, ◌*◌, ◌/◌, ◌%◌, ◌<◌, ◌≡◌, inl, inr, refl, ap, ◌∙◌, Bool, true, false, ◌&&◌,
  Option, none, some, List, [], ◌∷◌, ◌++◌, ◌==◌, leb, ltb, if◌then◌else◌, length, take, drop,
  if_true, if_false, Bool-cases, All, length-append, take-append, drop-append, take-length,
  drop-add, arith,
}
use cue_pool.Base.Parse.{parse_unsigned, is_digit, digits_value, in_limit}
use cue_pool.Msc.{
  Outcome, MscData, present, ◌>>=◌, index, slice, position_or_length, as_outcome, read_qid,
  read_executor_page, read_target, is_separator, from_utf8, utf8_from, parse_byte,
}

pub bind_eq :
    {A B : Type 0} (o : Outcome A) (f : A → Outcome B) (a : A) → o ≡ present a → (o >>= f) ≡ f a
bind_eq o f a e = ap (λ o. o >>= f) e

pub slice-front : (xs ys : List ℕ) → slice (xs ++ ys) 0 (length xs) ≡ present xs
slice-front xs ys =
    let long = length-append xs ys in
    if_true (leb 0 (length xs) && leb (length xs) (length (xs ++ ys))) _ _ (ground (arith, long))
    ∙ ap (λ n. present (take n (xs ++ ys))) (omega arith)
    ∙ ap present (take-append xs ys)

pub slice-back :
    (xs ys : List ℕ) (b : ℕ)
    → slice (xs ++ b ∷ ys) (length xs + 1) (length (xs ++ b ∷ ys)) ≡ present ys
slice-back xs ys b =
    let buf = xs ++ b ∷ ys in
    let long = length-append xs (b ∷ ys) in
    let behind : drop (length xs + 1) buf ≡ ys =
      drop-add (length xs) 1 buf ∙ ap (drop 1) (drop-append xs (b ∷ ys)) in
    let left : length buf - (length xs + 1) ≡ length ys = omega (arith, long) in
    if_true (leb (length xs + 1) (length buf) && leb (length buf) (length buf)) _ _
      (ground (arith, long))
    ∙ ap (λ l. present (take (length buf - (length xs + 1)) l)) behind
    ∙ ap (λ n. present (take n ys)) left
    ∙ ap present (take-length ys)

pub index-end : (xs : List ℕ) (b : ℕ) → index (xs ++ b ∷ []) (length xs) ≡ present b
index-end [] b = refl
index-end (x ∷ xs) b = index-end xs b

pub position-append :
    (f : ℕ → Bool) (xs ys : List ℕ) (b : ℕ)
    → All (λ x. f x ≡ false) xs
    → f b ≡ true
    → position_or_length f (xs ++ b ∷ ys) ≡ length xs
position-append f [] ys b h e = if_true (f b) _ _ e
position-append f (x ∷ xs) ys b h e =
    if_false (f x) _ _ h.0 ∙ ap suc (position-append f xs ys b h.1 e)

-- A string with no zero in it.
pub record Named (q : List ℕ) : Type 0 where
  pub whole : All (λ (b : ℕ). (b == 0) ≡ false) q
  pub encoded : from_utf8 q ≡ some q

read_qid-Named : (q rest : List ℕ) → Named q → read_qid (q ++ 0 ∷ rest) ≡ present (q, rest)
unfolding read_qid
read_qid-Named q rest named =
    let buf = q ++ 0 ∷ rest in
    let long = length-append q (0 ∷ rest) in
    let at : position_or_length (λ b. b == 0) buf ≡ length q =
      position-append (λ b. b == 0) q rest 0 (Named.whole named) refl in
    rw at (
      bind_eq _ _ q (slice-front q (0 ∷ rest))
      ∙ bind_eq _ _ q (ap as_outcome (Named.encoded named))
      ∙ if_true (ltb (length q) (length buf)) _ _ (ground (arith, long))
      ∙ bind_eq _ _ rest (slice-back q rest 0))

-- A number below 256 in decimal.
abbrev pub show_byte : ℕ → List ℕ
show_byte n =
    if ltb n 10
    then (0x30 + n) ∷ []
    else if ltb n 100
    then (0x30 + n / 10) ∷ (0x30 + n % 10) ∷ []
    else (0x30 + n / 100) ∷ (0x30 + n / 10 % 10) ∷ (0x30 + n % 10) ∷ []

-- The value of digits behind the value of those before them.
abbrev value : ℕ → List ℕ → ℕ
value n [] = n
value n (c ∷ cs) = value (n * 10 + (c - 0x30)) cs

abbrev Digits : List ℕ → Type 0
Digits = All (λ c. is_digit c ≡ true)

utf8_from-Digits : (cs : List ℕ) (lo hi : ℕ) → Digits cs → utf8_from 0 lo hi cs ≡ true
utf8_from-Digits [] lo hi digits = refl
utf8_from-Digits (c ∷ cs) lo hi (digit, digits) =
    let plain : ltb c 0x80 ≡ true = ground (arith, digit) in
    ap (λ (f : Option (ℕ × ℕ × ℕ)). elim f [ none ↦ false | some f ↦ utf8_from f.0 f.1 f.2 cs ])
      (if_true (ltb c 0x80) _ _ plain)
    ∙ utf8_from-Digits cs 0x80 0xBF digits

digits_value-value : (cs : List ℕ) (n : ℕ) → Digits cs → digits_value n cs ≡ some (value n cs)
digits_value-value [] n digits = refl
digits_value-value (c ∷ cs) n (digit, digits) =
    if_true (is_digit c) _ _ digit ∙ digits_value-value cs (n * 10 + (c - 0x30)) digits

parse_byte-Digits :
    (c : ℕ) (cs : List ℕ) (n : ℕ)
    → Digits (c ∷ cs)
    → value 0 (c ∷ cs) ≡ n
    → n < 256
    → parse_byte (c ∷ cs) ≡ some n
unfolding from_utf8
parse_byte-Digits c cs n digits is h =
    let no_plus : (c == 0x2B) ≡ false = ground (arith, digits.0) in
    ap (λ (o : Option (List ℕ)). elim o [ none ↦ none | some s ↦ parse_unsigned 256 s ])
      (if_true (utf8_from 0 0 0 (c ∷ cs)) _ _ (utf8_from-Digits (c ∷ cs) 0 0 digits))
    ∙ if_false (c == 0x2B) _ _ no_plus
    ∙ ap (in_limit 256) (digits_value-value (c ∷ cs) 0 digits ∙ ap some is)
    ∙ if_true (ltb n 256) _ _ (ground (arith, h))

parse_byte-show_byte : (n : ℕ) → n < 256 → parse_byte (show_byte n) ≡ some n
parse_byte-show_byte n h = elim (Bool-cases (ltb n 10)) [
  | inl one ↦ rw one (parse_byte-Digits (0x30 + n) [] n (ground (arith, one), tt) (omega arith) h)
  | inr more ↦ rw more (elim (Bool-cases (ltb n 100)) [
    | inl two ↦ rw two (
        parse_byte-Digits (0x30 + n / 10) ((0x30 + n % 10) ∷ []) n
          (ground (arith, two), (ground arith, tt)) (omega arith) h)
    | inr three ↦ rw three (
        parse_byte-Digits (0x30 + n / 100) ((0x30 + n / 10 % 10) ∷ (0x30 + n % 10) ∷ []) n
          (ground (arith, three), (ground arith, (ground arith, tt))) (omega arith) h)
  ])
]

-- The bytes of a number are no separator.
abbrev Plain : List ℕ → Type 0
Plain = All (λ b. is_separator b ≡ false)

show_byte-Plain : (n : ℕ) → n < 256 → Plain (show_byte n)
show_byte-Plain n h = elim (Bool-cases (ltb n 10)) [
  | inl one ↦ rw one (ground arith, tt)
  | inr more ↦ rw more (elim (Bool-cases (ltb n 100)) [
    | inl two ↦ rw two (ground arith, (ground arith, tt))
    | inr three ↦ rw three (ground arith, (ground arith, (ground arith, tt)))
  ])
]

read_page :
    (e p : List ℕ)
    → Plain e
    → read_executor_page (e ++ 0x2E ∷ p) ≡ present (parse_byte e, parse_byte p)
unfolding read_executor_page
read_page e p plain =
    let buf = e ++ 0x2E ∷ p in
    let long = length-append e (0x2E ∷ p) in
    let at : position_or_length is_separator buf ≡ length e =
      position-append is_separator e p 0x2E plain refl in
    let filled : (length buf == 0) ≡ false = ground (arith, long) in
    rw at (
      if_false (length buf == 0) _ _ filled
      ∙ bind_eq _ _ e (slice-front e (0x2E ∷ p))
      ∙ if_true (ltb (length e) (length buf)) _ _ (ground (arith, long))
      ∙ bind_eq _ _ p (slice-back e p 0x2E))

-- A cue number, an executor and a page, as they stand in a message.
abbrev pub target_bytes : List ℕ → ℕ → ℕ → List ℕ
target_bytes q e p = q ++ 0 ∷ (show_byte e ++ 0x2E ∷ show_byte p)

pub read_target-bytes :
    (make : List ℕ → Option ℕ → Option ℕ → MscData) (q : List ℕ) (e p : ℕ)
    → Named q
    → e < 256
    → p < 256
    → read_target make (target_bytes q e p) ≡ present (make q (some e) (some p))
read_target-bytes make q e p named he hp =
    let rest = show_byte e ++ 0x2E ∷ show_byte p in
    bind_eq _ _ (q, rest) (read_qid-Named q rest named)
    ∙ bind_eq _ _ (parse_byte (show_byte e), parse_byte (show_byte p))
        (read_page (show_byte e) (show_byte p) (show_byte-Plain e he))
    ∙ rw (parse_byte-show_byte e he, parse_byte-show_byte p hp) refl
