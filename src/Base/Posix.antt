-- ===== src/Base/Posix.antt =====
-- Python's `PurePosixPath` on texts: the components of a path, and how it is printed.
use Prim.Native.String.{String}
use Prim.Native.String.{◌++◌ as ◌⁀◌}
use mathlib.Core.Bool.{Bool}
use mathlib.Core.List.{List, [], ◌∷◌}
use proofcoder.Base.Tests.{if◌then◌else◌, ◌==◌}
use proofcoder.Base.Text.{has_prefix, split_at}

-- empty components and `.` are dropped
unfoldable pub components : List String → List String
components [] = []
components (c ∷ cs) =
    let rest = components cs in if c == "" then rest else if c == "." then rest else c ∷ rest

-- the parts of a relative path: those of an absolute path have the root in front
unfoldable pub parts : String → List String
unfolding components split_at
parts s = components (split_at 47 s)

unfoldable pub is_absolute : String → Bool
unfolding has_prefix
is_absolute s = has_prefix "/" s

unfoldable pub join_parts : List String → String
join_parts [] = "."
join_parts (c ∷ []) = c
join_parts (c ∷ d ∷ cs) = c ⁀ ("/" ⁀ join_parts (d ∷ cs))

-- path.as_posix() of a relative path
unfoldable pub as_posix : String → String
unfolding parts join_parts
as_posix s = join_parts (parts s)
