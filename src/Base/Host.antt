-- ===== src/Base/Host.antt =====
-- What the program asks of Python's text functions whose answers depend on Unicode tables or on
-- Python's version, and of the file system.
use mathlib.Core.Bool.{Bool}
use mathlib.Core.List.{List}
use mathlib.Core.Option.{Option}
use Prim.Native.Nat.{ℕ}
use Prim.Native.String.{String}
use proofcoder.Json.{Json}

pub record Texts : Type 0 where
  -- bool(PureWindowsPath(value).drive)
  pub has_drive : String → Bool
  -- value.casefold()
  pub casefold : String → String
  -- not value.strip()
  pub is_blank : String → Bool

-- An absolute path, as its components below the root.
abbrev pub FilePath : Type 0
FilePath = List String

pub record Files : Type 0 where
  -- path.resolve(strict=False) and path.resolve(strict=True); none where they raise OSError
  pub resolve : FilePath → Option FilePath
  pub resolve_strict : FilePath → Option FilePath
  pub exists : FilePath → Bool
  pub is_dir : FilePath → Bool
  pub is_file : FilePath → Bool
  -- os.path.lexists(path)
  pub lexists : FilePath → Bool

-- json.loads and json.dumps, and what the program measures of their texts.
pub record Codec : Type 0 where
  -- json.loads(text), none where it raises JSONDecodeError
  pub loads : String → Option Json
  -- json.dumps(value, ensure_ascii=False, separators=(",", ":"), sort_keys=True)
  pub dumps_sorted : Json → String
  -- json.dumps(value, ensure_ascii=False, separators=(",", ":"))
  pub dumps : Json → String
  -- len(text.encode("utf-8"))
  pub utf8_length : String → ℕ
