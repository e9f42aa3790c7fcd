-- ===== src/Text.antt =====
-- Python's operations on texts that the application uses. A text is its Unicode scalar values: lone
-- surrogates are left out.
use Prim.Native.Char.{Char, code}
use Prim.Native.String.{◌++◌, count}
use comfyui_image_frontend.Prelude.{
  ℕ, zero, suc, String, Bool, true, false, ◌&&◌, ◌||◌, List, [], ◌∷◌, ◌==◌, leb, any, str_eq,
  if◌then◌else◌,
}

-- Full case folding where it gives ASCII letters: the capitals, and the characters beyond ASCII
-- that fold to them.
abbrev fold_table : List (ℕ × String)
fold_table =
    (0x41, "a")
    ∷ (0x42, "b")
    ∷ (0x43, "c")
    ∷ (0x44, "d")
    ∷ (0x45, "e")
    ∷ (0x46, "f")
    ∷ (0x47, "g")
    ∷ (0x48, "h")
    ∷ (0x49, "i")
    ∷ (0x4a, "j")
    ∷ (0x4b, "k")
    ∷ (0x4c, "l")
    ∷ (0x4d, "m")
    ∷ (0x4e, "n")
    ∷ (0x4f, "o")
    ∷ (0x50, "p")
    ∷ (0x51, "q")
    ∷ (0x52, "r")
    ∷ (0x53, "s")
    ∷ (0x54, "t")
    ∷ (0x55, "u")
    ∷ (0x56, "v")
    ∷ (0x57, "w")
    ∷ (0x58, "x")
    ∷ (0x59, "y")
    ∷ (0x5a, "z")
    ∷ (0xdf, "ss")
    ∷ (0x17f, "s")
    ∷ (0x1e9e, "ss")
    ∷ (0x212a, "k")
    ∷ (0xfb00, "ff")
    ∷ (0xfb01, "fi")
    ∷ (0xfb02, "fl")
    ∷ (0xfb03, "ffi")
    ∷ (0xfb04, "ffl")
    ∷ (0xfb05, "st")
    ∷ (0xfb06, "st")
    ∷ []

fold_char : Char → List (ℕ × String) → String
fold_char c [] = String.◌∷◌ c String.[]
fold_char c ((n, t) ∷ rest) = let later = fold_char c rest in if code c == n then t else later

-- `text.casefold()` for a comparison with an ASCII text: a character whose folding is not ASCII
-- stays as it is, and keeps the text unequal to every ASCII text.
unfoldable pub casefold : String → String
unfolding fold_char
casefold String.[] = ""
casefold (String.◌∷◌ c s) = fold_char c fold_table ++ casefold s

-- `character.isspace()`
abbrev pub is_space : Char → Bool
is_space c =
    any (λ n. code c == n)
      (0x20 ∷ 0x09 ∷ 0x0a ∷ 0x0b ∷ 0x0c ∷ 0x0d ∷ 0x1c ∷ 0x1d ∷ 0x1e ∷ 0x1f ∷ 0x85 ∷ 0xa0 ∷ 0x1680
        ∷ 0x2028 ∷ 0x2029 ∷ 0x202f ∷ 0x205f ∷ 0x3000 ∷ [])
    || leb 0x2000 (code c) && leb (code c) 0x200a

-- `text.lstrip()`
unfoldable pub lstrip : String → String
lstrip String.[] = ""
lstrip (String.◌∷◌ c s) = let rest = lstrip s in if is_space c then rest else String.◌∷◌ c s

-- `text.rstrip()`
unfoldable pub rstrip : String → String
rstrip String.[] = ""
rstrip (String.◌∷◌ c s) =
    let rest = rstrip s in if is_space c && str_eq rest "" then "" else String.◌∷◌ c rest

-- `text.strip()`
abbrev pub strip : String → String
strip s = rstrip (lstrip s)

-- `" ".join(text.split())`: whether a word has begun, and whether a space follows it.
unfoldable pub joined : Bool → Bool → String → String
joined begun spaced String.[] = ""
joined begun spaced (String.◌∷◌ c s) =
    let skipped = joined begun true s in
    let kept = String.◌∷◌ c (joined true false s) in
    if is_space c then skipped else if begun && spaced then " " ++ kept else kept

unfoldable pub squeeze : String → String
unfolding joined
squeeze s = joined false false s

-- `text[:n]`
unfoldable pub take_text : ℕ → String → String
take_text zero s = ""
take_text (suc n) String.[] = ""
take_text (suc n) (String.◌∷◌ c s) = String.◌∷◌ c (take_text n s)

-- `text in {...}`
abbrev pub one_of : List String → String → Bool
one_of names s = any (str_eq s) names

-- `len(text)`
abbrev pub len : String → ℕ
len = count
