-- ===== src/Version.antt =====
-- lib/spr_version.c: which text the library tells of itself.
use spr.Base.{ℕ, List, [], ◌∷◌, Option, none, some}

-- `spr_version_type_t`, and any other value
pub data VersionType : Type 0 where
  version_type built_date platform other : VersionType

-- "SPR 0.0.4 2020-07-15", from SPR_VERSION_STR and SPR_VERSION_DATE
abbrev version_text : List ℕ
version_text =
    83 ∷ 80 ∷ 82 ∷ 32 ∷ 48 ∷ 46 ∷ 48 ∷ 46 ∷ 52 ∷ 32 ∷ 50 ∷ 48 ∷ 50 ∷ 48 ∷ 45 ∷ 48 ∷ 55 ∷ 45 ∷ 49
    ∷ 53 ∷ []

-- `spr_version`, with __DATE__ and SPR_SYSTEM_NAME; `none` is NULL
unfoldable pub version : (date system_name : List ℕ) → VersionType → Option (List ℕ)
version date system_name version_type = some version_text
version date system_name built_date = some date
version date system_name platform = some system_name
version date system_name other = none
