-- ===== src/Paths/Secrets.antt =====
-- safety/secrets.py: the names of files that hold credentials or keys; safety/policy.py: the name
-- of a command policy file.
use Prim.Native.Char.{code}
use proofcoder.Base.{
  String, Bool, true, false, ◌&&◌, ◌||◌, not, List, [], ◌∷◌, if◌then◌else◌, ◌==◌, eqb, any,
}
use proofcoder.Base.Host.{Texts}
use proofcoder.Base.Posix.{parts}
use proofcoder.Base.Text.{mem_text, has_prefix, to_slashes}

abbrev pub sensitive_names : List String
sensitive_names =
    ".netrc" ∷ ".npmrc" ∷ ".pypirc" ∷ "_netrc" ∷ "application_default_credentials.json"
    ∷ "credentials" ∷ "credentials.json" ∷ "id_dsa" ∷ "id_ecdsa" ∷ "id_ed25519" ∷ "id_rsa"
    ∷ "secrets.json" ∷ "service-account.json" ∷ "service_account.json" ∷ []

abbrev pub sensitive_suffixes : List String
sensitive_suffixes =
    ".cer" ∷ ".crt" ∷ ".der" ∷ ".jks" ∷ ".key" ∷ ".keystore" ∷ ".p12" ∷ ".pem" ∷ ".pfx" ∷ []

-- the text from its last dot on, or ""
from_last_dot : String → String
from_last_dot String.[] = ""
from_last_dot (String.◌∷◌ c s) =
    let rest = from_last_dot s in
    if not (rest == "") then rest else if eqb (code c) 46 then String.◌∷◌ c s else ""

-- Path(name).suffix: a dot that starts or ends the name starts no suffix
unfoldable pub suffix : String → String
unfolding from_last_dot
suffix String.[] = ""
suffix (String.◌∷◌ c s) = let rest = from_last_dot s in if rest == "." then "" else rest

-- PurePosixPath(path).name: the last component, or ""
unfoldable pub last_part : List String → String
last_part [] = ""
last_part (c ∷ []) = c
last_part (c ∷ d ∷ cs) = last_part (d ∷ cs)

module _ (texts : Texts) where
  unfoldable pub is_sensitive_filename : String → Bool
  is_sensitive_filename name =
      let lowered = texts.casefold name in
      if lowered == ".env.example"
      then false
      else if lowered == ".env" || has_prefix ".env." lowered
      then true
      else mem_text lowered sensitive_names || mem_text (suffix lowered) sensitive_suffixes

  unfoldable pub is_sensitive_path : String → Bool
  is_sensitive_path path =
      any (λ part. not (mem_text part ("" ∷ "." ∷ ".." ∷ [])) && is_sensitive_filename part)
        (parts (to_slashes path))

  unfoldable pub is_command_policy_path : String → Bool
  is_command_policy_path relative = texts.casefold (last_part (parts relative)) == "proofcoder.toml"
