-- ===== src/Process.antt =====
-- The variables of a process, as the main.go files of the four services read them.
use beacon_v.Prelude.{String, ◌==◌, if◌then◌else◌}

-- `envOrDefault`, where an unset variable reads as "".
unfoldable pub env_or_default : (String → String) → String → String → String
env_or_default getenv key fallback = if getenv key == "" then fallback else getenv key
