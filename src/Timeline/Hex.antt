-- ===== src/Timeline/Hex.antt =====
-- Numbers in hexadecimal, as `format!` of src/timeline.rs writes them and `from_str_radix` reads
-- them, and that reading undoes writing.
use meta_agent_control_plane.Prelude.{
  ℕ, zero, suc, ◌+◌, ◌-◌, ◌*◌, ◌/◌, ◌%◌, ◌≤◌, ◌<◌, ◌≡◌, refl, ap, sym, ◌∙◌, Bool, true, false, ◌&&◌,
  ◌||◌, Option, none, some, List, [], ◌∷◌, ◌++◌, length, length-append, leb, ltb, nat_beq,
  if◌then◌else◌, arith, Option-cases, inl, inr,
}

-- UTF-8.
abbrev pub Text : Type 0
Text = List ℕ

unfoldable pub contains_byte : ℕ → Text → Bool
contains_byte b [] = false
contains_byte b (c ∷ cs) = nat_beq c b || contains_byte b cs

abbrev pub same_text : Text → Text → Bool
same_text [] [] = true
same_text (c ∷ cs) (d ∷ ds) = nat_beq c d && same_text cs ds
same_text _ _ = false

unfoldable pub hex_digit : ℕ → ℕ
hex_digit d = if ltb d 10 then b'0' + d else b'a' + d - 10

-- `{:0width$x}` of a number below 16^width: as many digits as the width says.
unfoldable pub lower_hex : ℕ → ℕ → Text
lower_hex zero n = []
lower_hex (suc width) n = lower_hex width (n / 16) ++ (hex_digit (n % 16) ∷ [])

-- `char::to_digit(16)`.
unfoldable pub to_digit : ℕ → Option ℕ
to_digit c =
    if leb b'0' c && leb c b'9'
    then some (c - b'0')
    else if leb b'a' c && leb c b'f'
    then some (c - b'a' + 10)
    else if leb b'A' c && leb c b'F'
    then some (c - b'A' + 10)
    else none

-- `checked_mul` and `checked_add` of one digit.
unfoldable pub push_digit : ℕ → ℕ → ℕ → Option ℕ
push_digit maximum n c = elim (to_digit c) [
  | none ↦ none
  | some d ↦ if leb (n * 16 + d) maximum then some (n * 16 + d) else none
]

unfoldable pub read_digits : ℕ → ℕ → Text → Option ℕ
read_digits maximum n [] = some n
read_digits maximum n (c ∷ cs) = elim (push_digit maximum n c) [
  | none ↦ none
  | some m ↦ read_digits maximum m cs
]

-- `from_str_radix(text, 16)` of an unsigned type with the given maximum: a plus may stand first, and
-- there is a digit.
unfoldable pub from_str_radix : ℕ → Text → Option ℕ
from_str_radix maximum [] = none
from_str_radix maximum (c ∷ []) = read_digits maximum 0 (c ∷ [])
from_str_radix maximum (c ∷ d ∷ cs) =
    let rest = read_digits maximum 0 (d ∷ cs) in
    let whole = read_digits maximum 0 (c ∷ d ∷ cs) in if nat_beq c b'+' then rest else whole

pub length-lower_hex : (width n : ℕ) → length (lower_hex width n) ≡ width
unfolding lower_hex
length-lower_hex zero n = refl
length-lower_hex (suc width) n = omega (
  arith,
  length-append (lower_hex width (n / 16)) (hex_digit (n % 16) ∷ []),
  length-lower_hex width (n / 16),
)

pub contains_byte-append :
    (b : ℕ) (l r : Text)
    → contains_byte b l ≡ false
    → contains_byte b r ≡ false
    → contains_byte b (l ++ r) ≡ false
unfolding contains_byte
contains_byte-append b [] r h k = k
contains_byte-append b (c ∷ l) r h k = ground (arith, contains_byte-append b l r)

digit_undotted : (d : ℕ) → contains_byte b'.' (hex_digit d ∷ []) ≡ false
unfolding contains_byte hex_digit
digit_undotted d = ground arith

digit_unsigned : (d : ℕ) → contains_byte b'+' (hex_digit d ∷ []) ≡ false
unfolding contains_byte hex_digit
digit_unsigned d = ground arith

digit_unjoined : (d : ℕ) → contains_byte b'&' (hex_digit d ∷ []) ≡ false
unfolding contains_byte hex_digit
digit_unjoined d = ground arith

pub lower_hex_unjoined : (width n : ℕ) → contains_byte b'&' (lower_hex width n) ≡ false
unfolding lower_hex contains_byte
lower_hex_unjoined zero n = refl
lower_hex_unjoined (suc width) n =
    contains_byte-append b'&' (lower_hex width (n / 16)) (hex_digit (n % 16) ∷ [])
      (lower_hex_unjoined width (n / 16)) (digit_unjoined (n % 16))

pub lower_hex_undotted : (width n : ℕ) → contains_byte b'.' (lower_hex width n) ≡ false
unfolding lower_hex contains_byte
lower_hex_undotted zero n = refl
lower_hex_undotted (suc width) n =
    contains_byte-append b'.' (lower_hex width (n / 16)) (hex_digit (n % 16) ∷ [])
      (lower_hex_undotted width (n / 16)) (digit_undotted (n % 16))

pub lower_hex_unsigned : (width n : ℕ) → contains_byte b'+' (lower_hex width n) ≡ false
unfolding lower_hex contains_byte
lower_hex_unsigned zero n = refl
lower_hex_unsigned (suc width) n =
    contains_byte-append b'+' (lower_hex width (n / 16)) (hex_digit (n % 16) ∷ [])
      (lower_hex_unsigned width (n / 16)) (digit_unsigned (n % 16))

to_digit-hex_digit : (d : ℕ) → d < 16 → to_digit (hex_digit d) ≡ some d
unfolding to_digit hex_digit
to_digit-hex_digit d h = ground arith

push-hex_digit :
    (maximum n : ℕ) → n ≤ maximum → push_digit maximum (n / 16) (hex_digit (n % 16)) ≡ some n
unfolding push_digit
push-hex_digit maximum n h =
    let whole : n / 16 * 16 + n % 16 ≡ n = omega arith in
    rw (to_digit-hex_digit (n % 16) (omega arith), push_digit) (rw whole (ground arith))

-- The number has no more digits than the width says.
abbrev pub Fits : ℕ → ℕ → Type 0
Fits zero n = n ≡ 0
Fits (suc width) n = Fits width (n / 16)

read_digits-append :
    (maximum n : ℕ) (l r : Text) {m : ℕ}
    → read_digits maximum n l ≡ some m
    → read_digits maximum n (l ++ r) ≡ read_digits maximum m r
unfolding read_digits
read_digits-append maximum n [] r h = ap (λ k. read_digits maximum k r) (cc)
read_digits-append maximum n (c ∷ l) r h = elim (Option-cases (push_digit maximum n c)) [
  | inl bad ↦ let e = rw (bad, read_digits) at h in cc
  | inr (k, good) ↦
      rw (good, read_digits) (read_digits-append maximum k l r (rw (good, read_digits) at h))
]

read-lower_hex :
    (maximum width n : ℕ)
    → Fits width n
    → n ≤ maximum
    → read_digits maximum 0 (lower_hex width n) ≡ some n
unfolding lower_hex read_digits
read-lower_hex maximum zero n fits h = ap some (sym fits)
read-lower_hex maximum (suc width) n fits h =
    let front = read-lower_hex maximum width (n / 16) fits (omega arith) in
    read_digits-append maximum 0 (lower_hex width (n / 16)) (hex_digit (n % 16) ∷ []) front
    ∙ rw (push-hex_digit maximum n h, read_digits) refl

unsigned_radix :
    (maximum : ℕ) (l : Text)
    → 0 < length l
    → contains_byte b'+' l ≡ false
    → from_str_radix maximum l ≡ read_digits maximum 0 l
unfolding from_str_radix contains_byte
unsigned_radix maximum [] some_digit h = absurd (omega arith)
unsigned_radix maximum (c ∷ []) some_digit h = refl
unsigned_radix maximum (c ∷ d ∷ l) some_digit h =
    let plain : nat_beq c b'+' ≡ false = ground arith in rw plain refl

-- Reading what was written of a number that fits gives it back.
pub from_str_radix-lower_hex :
    (maximum width n : ℕ)
    → 0 < width
    → Fits width n
    → n ≤ maximum
    → from_str_radix maximum (lower_hex width n) ≡ some n
from_str_radix-lower_hex maximum width n wide fits h =
    unsigned_radix maximum (lower_hex width n) (omega (arith, length-lower_hex width n))
      (lower_hex_unsigned width n)
    ∙ read-lower_hex maximum width n fits h
