-- ===== src/Base/Text.antt =====
-- Python's text operations that the program uses, over the native texts.
use Prim.Native.Nat.{ℕ, suc}
use Prim.Native.Char.{code}
use Prim.Native.String.{String}
use mathlib.Core.Bool.{Bool, true, false, not, ◌&&◌, ◌||◌}
use mathlib.Core.Option.{Option, none, some}
use mathlib.Core.List.{List, [], ◌∷◌}
use proofcoder.Base.Tests.{eqb, if◌then◌else◌, ◌==◌}

-- len(s): the code points
unfoldable pub text_length : String → ℕ
text_length String.[] = 0
text_length (String.◌∷◌ c s) = suc (text_length s)

-- s[:len(p)] == p
unfoldable pub has_prefix : String → String → Bool
has_prefix String.[] s = true
has_prefix (String.◌∷◌ p ps) String.[] = false
has_prefix (String.◌∷◌ p ps) (String.◌∷◌ c s) = eqb (code p) (code c) && has_prefix ps s

-- a character of this code occurs in the text
unfoldable pub has_char : ℕ → String → Bool
has_char n String.[] = false
has_char n (String.◌∷◌ c s) = eqb (code c) n || has_char n s

-- `needle in s`
unfoldable pub contains_text : String → String → Bool
unfolding has_prefix
contains_text needle String.[] = has_prefix needle String.[]
contains_text needle (String.◌∷◌ c s) = has_prefix needle (String.◌∷◌ c s) || contains_text needle s

-- membership in a frozenset or tuple of texts
unfoldable pub mem_text : String → List String → Bool
mem_text t [] = false
mem_text t (x ∷ xs) = x == t || mem_text t xs

-- value.replace("\\", "/")
unfoldable pub to_slashes : String → String
to_slashes String.[] = ""
to_slashes (String.◌∷◌ c s) = String.◌∷◌ (if eqb (code c) 92 then "/" else c) (to_slashes s)

cons_head : Prim.Native.Char.Char → List String → List String
cons_head c [] = String.◌∷◌ c "" ∷ []
cons_head c (x ∷ xs) = String.◌∷◌ c x ∷ xs

-- s.split(c) at the character of this code
unfoldable pub split_at : ℕ → String → List String
unfolding cons_head
split_at n String.[] = "" ∷ []
split_at n (String.◌∷◌ c s) =
    let rest = split_at n s in if eqb (code c) n then "" ∷ rest else cons_head c rest

-- s.endswith(p)
unfoldable pub has_suffix : String → String → Bool
has_suffix p String.[] = p == ""
has_suffix p (String.◌∷◌ c s) = p == String.◌∷◌ c s || has_suffix p s

-- s.partition(c) at the character of this code: the text before it, and the text behind it if it is there
unfoldable pub partition_at : ℕ → String → String × Option String
partition_at n String.[] = ("", none)
partition_at n (String.◌∷◌ c s) =
    let (before, behind) = partition_at n s in
    if eqb (code c) n then ("", some s) else (String.◌∷◌ c before, behind)

-- s.split("::", 1)[0]
unfoldable pub before_colons : String → String
unfolding has_prefix
before_colons String.[] = ""
before_colons (String.◌∷◌ c s) =
    let rest = before_colons s in if has_prefix "::" (String.◌∷◌ c s) then "" else String.◌∷◌ c rest

-- s[1:]
unfoldable pub tail_text : String → String
tail_text String.[] = ""
tail_text (String.◌∷◌ c s) = s

-- s.removesuffix(p)
unfoldable pub remove_suffix : String → String → String
remove_suffix p String.[] = ""
remove_suffix p (String.◌∷◌ c s) =
    let rest = remove_suffix p s in
    if p == String.◌∷◌ c s && not (p == "") then "" else String.◌∷◌ c rest
