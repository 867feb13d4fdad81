-- ===== src/Text.antt =====
-- What the handlers use of JavaScript's strings: trim() and includes(" "), and the optional text of a
-- request (requireString and optionalString of apps/msp-server/src/transport/handlers).
use Prim.Native.Char.{code}
use memory_and_soul_passport.Prelude.{
  ℕ, String, Bool, false, ◌&&◌, ◌||◌, Option, none, some, leb, nat_eq, if◌then◌else◌, ◌==◌,
}
use memory_and_soul_passport.Grant.{Claim, text}

-- White space and line terminators of ECMAScript.
abbrev pub is_space : ℕ → Bool
is_space c =
    (leb 9 c && leb c 13)
    || nat_eq c 32
    || nat_eq c 160
    || nat_eq c 5760
    || (leb 8192 c && leb c 8202)
    || nat_eq c 8232
    || nat_eq c 8233
    || nat_eq c 8239
    || nat_eq c 8287
    || nat_eq c 12288
    || nat_eq c 65279

unfoldable pub trim_start : String → String
trim_start String.[] = ""
trim_start (String.◌∷◌ c s) =
    let rest = trim_start s in if is_space (code c) then rest else String.◌∷◌ c s

unfoldable pub trim_end : String → String
trim_end String.[] = ""
trim_end (String.◌∷◌ c s) =
    let rest = trim_end s in if rest == "" && is_space (code c) then "" else String.◌∷◌ c rest

unfoldable pub trim : String → String
unfolding trim_start trim_end
trim s = trim_start (trim_end s)

-- `s.includes(" ")`
unfoldable pub has_space : String → Bool
has_space String.[] = false
has_space (String.◌∷◌ c s) = nat_eq (code c) 32 || has_space s

-- `typeof value === "string" && value.trim()`, with the trimmed text
unfoldable pub optional_string : Claim → Option String
unfolding trim
optional_string (text s) = let t = trim s in if t == "" then none else some t
optional_string _ = none
