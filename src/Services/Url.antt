-- ===== src/Services/Url.antt =====
-- The joining of a base URL and a path in services.go and gateway.go: `strings.TrimRight` and
-- `strings.TrimLeft` with the cutset "/".
pub mod Slashes
use Prim.Native.Char.{code}
use dasher.Common.{String, Bool, ◌<>◌, ◌==◌, ◌==ℕ◌, ◌&&◌, if◌then◌else◌}

unfoldable pub trim_left : String → String
trim_left String.[] = ""
trim_left (String.◌∷◌ c s) =
    let rest = trim_left s in if code c ==ℕ b'/' then rest else String.◌∷◌ c s

unfoldable pub trim_right : String → String
trim_right String.[] = ""
trim_right (String.◌∷◌ c s) =
    let rest = trim_right s in if (rest == "") && (code c ==ℕ b'/') then "" else String.◌∷◌ c rest

unfoldable pub join_url : String → String → String
unfolding trim_left trim_right
join_url base_url path = trim_right base_url <> "/" <> trim_left path
