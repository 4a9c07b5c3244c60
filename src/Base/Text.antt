-- ===== src/Base/Text.antt =====
-- Texts: the equality test, Python's truth test, and `str.strip`, `str.upper`, `str.lower` on ASCII
-- (other characters are left as they are).
use inaam_wperp.Base.Tests.{leb, ◌==◌, if◌then◌else◌}
use inaam_wperp.Base.Rows.{exists_by}
use mathlib.Core.List.{List}
use Prim.Native.Nat.{ℕ, zero, suc, ◌+◌, ◌-◌, ◌<◌, compare, Ordering}
use Prim.Native.Char.{Char, char, code, IsScalar}
use Prim.Native.String.{String}
use mathlib.Core.Path.{◌≡◌, refl, sym}
use mathlib.Core.Logic.{dite}
use mathlib.Core.Bool.{Bool, true, false, ◌&&◌, ◌||◌}
use mathlib.Core.Option.{Option, none, some}
use native.Mathlib.Omega.{arith}
use native.Mathlib.Decide.{dec_le}
use text.Mathlib.Text
use text.Mathlib.TextEquality.{eq_iff}

dec_true : (b : Bool) → Dec (b ≡ true)
dec_true true = yes refl
dec_true false = no (λ h. cc)

unfoldable pub text_dec : (s t : String) → Dec (s ≡ t)
unfolding dec_true
text_dec s t = elim (dec_true (Text.◌==◌ s t)) [
  | yes h ↦ yes ((eq_iff s t).0 h)
  | no h ↦ no (λ e. h ((eq_iff s t).1 e))
]

infix 50 ◌=ₜ◌
abbrev pub ◌=ₜ◌ : String → String → Bool
s =ₜ t = elim (text_dec s t) [ yes _ ↦ true | no _ ↦ false ]

-- `t in {…}`
abbrev pub is_one_of : List String → String → Bool
is_one_of texts t = exists_by (λ u. u =ₜ t) texts

abbrev pub is_empty : String → Bool
is_empty String.[] = true
is_empty (String.◌∷◌ c s) = false

-- `a or b` where `a` is a text or `None`
abbrev pub text_or : Option String → String → String
text_or none b = b
text_or (some a) b = if is_empty a then b else a

-- The ASCII characters for which `str.isspace` holds.
is_space : ℕ → Bool
is_space n = n == 32 || (leb 9 n && leb n 13) || (leb 28 n && leb n 31)

unfoldable pub lstrip : String → String
unfolding is_space
lstrip String.[] = String.[]
lstrip (String.◌∷◌ c s) = let rest = lstrip s in if is_space (code c) then rest else String.◌∷◌ c s

unfoldable pub rstrip : String → String
unfolding is_space
rstrip String.[] = String.[]
rstrip (String.◌∷◌ c s) =
    let rest = rstrip s in
    if is_empty rest && is_space (code c) then String.[] else String.◌∷◌ c rest

unfoldable pub strip : String → String
unfolding lstrip rstrip
strip s = rstrip (lstrip s)

compare-lt : (a b : ℕ) → a < b → Ordering.lt ≡ compare a b
compare-lt a b h = ground arith

pub ascii-IsScalar : (n : ℕ) → n < 55296 → IsScalar n
ascii-IsScalar n h = rw (sym (compare-lt n 55296 h)) tt

upper_char : Char → Char
upper_char (char n s) =
    dite (dec_le 97 n)
      (λ a.
        dite (dec_le n 122) (λ b. char (n - 32) (ascii-IsScalar (n - 32) (omega arith)))
          (λ _. char n s))
      (λ _. char n s)

lower_char : Char → Char
lower_char (char n s) =
    dite (dec_le 65 n)
      (λ a.
        dite (dec_le n 90) (λ b. char (n + 32) (ascii-IsScalar (n + 32) (omega arith)))
          (λ _. char n s))
      (λ _. char n s)

unfoldable pub upper : String → String
unfolding upper_char dec_le
upper String.[] = String.[]
upper (String.◌∷◌ c s) = String.◌∷◌ (upper_char c) (upper s)

unfoldable pub lower : String → String
unfolding lower_char dec_le
lower String.[] = String.[]
lower (String.◌∷◌ c s) = String.◌∷◌ (lower_char c) (lower s)

upper-pkr : upper "pkR" ≡ "PKR"
unfolding upper
upper-pkr = refl

-- `(reason or "").strip()`
abbrev pub stripped : Option String → String
stripped reason = strip (text_or reason "")

-- `text or None`
abbrev pub or_none : String → Option String
or_none t = if is_empty t then none else some t

-- `a or b` where both are a text or `None`
abbrev pub or_text : Option String → Option String → Option String
or_text none b = b
or_text (some a) b = if is_empty a then b else some a

-- `text.replace("-", "")`
unfoldable pub without_dashes : String → String
without_dashes String.[] = String.[]
without_dashes (String.◌∷◌ c s) =
    let rest = without_dashes s in if code c == 45 then rest else String.◌∷◌ c rest

-- `text[:n]`
unfoldable pub first_chars : ℕ → String → String
first_chars zero s = String.[]
first_chars (suc n) String.[] = String.[]
first_chars (suc n) (String.◌∷◌ c s) = String.◌∷◌ c (first_chars n s)
