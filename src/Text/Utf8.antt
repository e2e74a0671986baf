-- ===== src/Text/Utf8.antt =====
-- `str::from_utf8`: strict decoding.
use core_shift_engine.Base.{
  ℕ, zero, suc, ◌+◌, ◌-◌, ◌*◌, ◌≡◌, refl, Bool, true, false, ◌&&◌, List, [], ◌∷◌, Option, none,
  some, leb, ltb, if◌then◌else◌, ◌++◌, Bool-cases, inl, inr, option_map, ◌==◌, nat_ord, all, arith,
}
use core_shift_engine.Text.Chars.{Text}

-- What a first byte announces: the bytes to come, its own bits, and the range of the next byte.
record Lead : Type 0 where
  good : Bool
  need : ℕ
  bits : ℕ
  low : ℕ
  high : ℕ

abbrev refused : Lead
refused = record { good = false; need = 0; bits = 0; low = 0x80; high = 0xbf }

abbrev more : ℕ → ℕ → ℕ → ℕ → Lead
more need bits low high = record { good = true; need = need; bits = bits; low = low; high = high }

abbrev lead4 : ℕ → Lead
lead4 a =
    if a == 0xf0
    then more 3 (a - 0xf0) 0x90 0xbf
    else if leb a 0xf3
    then more 3 (a - 0xf0) 0x80 0xbf
    else if a == 0xf4
    then more 3 (a - 0xf0) 0x80 0x8f
    else refused

abbrev lead3 : ℕ → Lead
lead3 a =
    if a == 0xe0
    then more 2 (a - 0xe0) 0xa0 0xbf
    else if a == 0xed
    then more 2 (a - 0xe0) 0x80 0x9f
    else if leb a 0xef
    then more 2 (a - 0xe0) 0x80 0xbf
    else lead4 a

abbrev lead : ℕ → Lead
lead a =
    if ltb a 0x80
    then more 0 a 0x80 0xbf
    else if ltb a 0xc2
    then refused
    else if leb a 0xdf
    then more 1 (a - 0xc0) 0x80 0xbf
    else lead3 a

-- A code point is put out when its last byte is read.
abbrev push_char : ℕ → ℕ → Option Text → Option Text
push_char zero c rest = option_map (◌∷◌ c) rest
push_char (suc need) c rest = rest

-- With `need` bytes of a sequence to come, whose bits so far are `bits`, the next one in the range.
decode : ℕ → ℕ → ℕ → ℕ → List ℕ → Option Text
decode zero bits low high [] = some []
decode (suc need) bits low high [] = none
decode zero bits low high (a ∷ s) =
    let l = lead a in
    let rest = push_char l.need a (decode l.need l.bits l.low l.high s) in
    if l.good then rest else none
decode (suc need) bits low high (b ∷ s) =
    let c = bits * 64 + (b - 0x80) in
    let rest = push_char need c (decode need c 0x80 0xbf s) in
    if leb low b && leb b high then rest else none

-- Overlong forms, surrogates, values above 0x10FFFF and cut sequences are refused.
unfoldable pub from_utf8 : List ℕ → Option Text
unfolding decode
from_utf8 s = decode 0 0 0x80 0xbf s

-- What the bytes so far put out, and what is then to come, for `from_utf8_lossy`: a byte that does not
-- fit ends the sequence before it with U+FFFD, and starts anew.
abbrev put : ℕ → ℕ → Text
put zero c = c ∷ []
put (suc need) c = []

abbrev first_byte : ℕ → Text × Lead
first_byte a = let l = lead a in (if l.good then put l.need a else 0xfffd ∷ [], l)

abbrev next_byte : ℕ → ℕ → ℕ → ℕ → ℕ → Text × Lead
next_byte zero bits low high b = first_byte b
next_byte (suc need) bits low high b =
    let c = bits * 64 + (b - 0x80) in
    if leb low b && leb b high
    then (put need c, more need c 0x80 0xbf)
    else (0xfffd ∷ (first_byte b).0, (first_byte b).1)

lossy : ℕ → ℕ → ℕ → ℕ → List ℕ → Text
lossy zero bits low high [] = []
lossy (suc need) bits low high [] = 0xfffd ∷ []
lossy need bits low high (b ∷ s) =
    let (out, l) = next_byte need bits low high b in out ++ lossy l.need l.bits l.low l.high s

-- `String::from_utf8_lossy`
unfoldable pub from_utf8_lossy : List ℕ → Text
unfolding lossy
from_utf8_lossy s = lossy 0 0 0x80 0xbf s

decode-ascii :
    (bits low high : ℕ) (s : List ℕ)
    → all (λ b. ltb b 0x80) s ≡ true
    → decode 0 bits low high s ≡ some s
unfolding decode
decode-ascii bits low high [] h = refl
decode-ascii bits low high (a ∷ s) h = ground (arith, decode-ascii a 0x80 0xbf s)

-- ASCII bytes are their own code points.
pub from_utf8-ascii : (s : List ℕ) → all (λ b. ltb b 0x80) s ≡ true → from_utf8 s ≡ some s
unfolding from_utf8
from_utf8-ascii s h = decode-ascii 0 0x80 0xbf s h

euro : from_utf8 (b'a' ∷ 0xe2 ∷ 0x82 ∷ 0xac ∷ []) ≡ some (b'a' ∷ 0x20ac ∷ [])
unfolding from_utf8
euro = refl

surrogate : from_utf8 (0xed ∷ 0xa0 ∷ 0x80 ∷ []) ≡ none
unfolding from_utf8
surrogate = refl

push_char-put :
    (need c : ℕ) (o : Option Text) (t : Text) (rest : Text)
    → push_char need c o ≡ some t
    → ((u : Text) → o ≡ some u → rest ≡ u)
    → put need c ++ rest ≡ t
push_char-put zero c none t rest h k = cc
push_char-put zero c (some u) t rest h k = ground (arith, k u refl)
push_char-put (suc need) c o t rest h k = k t h

lossy-decode :
    (need bits low high : ℕ) (s t : Text)
    → decode need bits low high s ≡ some t
    → lossy need bits low high s ≡ t
unfolding decode lossy
lossy-decode zero bits low high [] t h = ground arith
lossy-decode (suc need) bits low high [] t h = cc
lossy-decode zero bits low high (a ∷ s) t h = elim (Bool-cases (lead a).good) [
  | inl good ↦ rw good (
      push_char-put (lead a).need a _ t _ (rw good at h)
        (λ u. lossy-decode (lead a).need (lead a).bits (lead a).low (lead a).high s u))
  | inr bad ↦ cc (rw bad at h)
]
lossy-decode (suc need) bits low high (b ∷ s) t h = elim (Bool-cases (leb low b && leb b high)) [
  | inl fits ↦ rw fits (
      push_char-put need (bits * 64 + (b - 0x80)) _ t _ (rw fits at h)
        (λ u. lossy-decode need (bits * 64 + (b - 0x80)) 0x80 0xbf s u))
  | inr bad ↦ cc (rw bad at h)
]

-- Where strict decoding succeeds, lossy decoding gives the same text.
pub from_utf8_lossy-from_utf8 : (s t : Text) → from_utf8 s ≡ some t → from_utf8_lossy s ≡ t
unfolding from_utf8 from_utf8_lossy
from_utf8_lossy-from_utf8 s t h = lossy-decode 0 0 0x80 0xbf s t h

cut_euro :
    from_utf8_lossy (0xe2 ∷ 0x82 ∷ b'a' ∷ 0xff ∷ 0xe2 ∷ []) ≡ 0xfffd ∷ b'a' ∷ 0xfffd ∷ 0xfffd ∷ []
unfolding from_utf8_lossy
cut_euro = refl
