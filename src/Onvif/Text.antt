-- ===== src/Onvif/Text.antt =====
-- The text handling of DeviceServer/src/OnvifScanner.cpp: a command's output line and the URL in it.
use device_app.Base.{◌&&◌, ◌||◌, String, Bool, if◌then◌else◌, nat_eq, ◌==◌, text_key}
use Prim.Native.String.{◌++◌ as append}
use Prim.Native.Char.{Char, code}
use text.Mathlib.Text.{starts_with}

-- text.find(pattern) != npos
unfoldable pub contains : String → String → Bool
contains pattern String.[] = pattern == ""
contains pattern (String.◌∷◌ c s) = starts_with (String.◌∷◌ c s) pattern || contains pattern s

unfoldable pub is_line_end : Char → Bool
is_line_end c = nat_eq (code c) 10 || nat_eq (code c) 13

-- `while (!result.empty() && …back()…) result.pop_back();` of '\n' and '\r'
unfoldable pub strip_line_ends : String → String
unfolding is_line_end
strip_line_ends String.[] = ""
strip_line_ends (String.◌∷◌ c s) =
    let rest = strip_line_ends s in if rest == "" && is_line_end c then "" else String.◌∷◌ c rest

-- One '\n' at the end.
unfoldable pub pop_newline : String → String
pop_newline String.[] = ""
pop_newline (String.◌∷◌ c String.[]) = if nat_eq (code c) 10 then "" else String.◌∷◌ c ""
pop_newline (String.◌∷◌ c (String.◌∷◌ d s)) = String.◌∷◌ c (pop_newline (String.◌∷◌ d s))

abbrev pub login : String
login = "admin:5hanwha!@"

unfoldable pub drop_first : String → String
drop_first String.[] = ""
drop_first (String.◌∷◌ c s) = s

-- The credentials go behind the first "//"; a text without one stays as it is.
unfoldable pub with_login : String → String
unfolding drop_first
with_login String.[] = ""
with_login (String.◌∷◌ c s) =
    let later = String.◌∷◌ c (with_login s) in
    if starts_with (String.◌∷◌ c s) "//" then append (append "//" login) (drop_first s) else later

-- `result.empty() || result.find("Error") != npos`
unfoldable pub is_refused : String → Bool
is_refused result = result == "" || contains "Error" result
