-- ===== src/Log/Levels.antt =====
-- LogLevel::ToString and LogLevel::FromString undo each other.
use Prim.Native.String.{String}
use text.Mathlib.TextEquality.{eq_iff}
use exhy.Common.{◌≡◌, ◌⊎◌, refl, arith}
use exhy.Log.{
  LogLevel, debugs, info, warn, error, fatal, unknow, level_to_string, level_from_string,
}

-- FromString reads back every level that ToString prints, and the name of the level that it makes of a text is that
-- text, or the text is none of the five names and the level is UNKNOW.
pub level_from_string_lem :
    (l : LogLevel) (s : String)
    → (level_from_string (level_to_string l) ≡ l)
      × ((level_to_string (level_from_string s) ≡ s) ⊎ (level_from_string s ≡ unknow))
unfolding level_from_string level_to_string
level_from_string_lem l s = (back l, forth)
  where
    back : (l : LogLevel) → level_from_string (level_to_string l) ≡ l
    back debugs = refl
    back info = refl
    back warn = refl
    back error = refl
    back fatal = refl
    back unknow = refl

    forth : (level_to_string (level_from_string s) ≡ s) ⊎ (level_from_string s ≡ unknow)
    forth = ground (
      arith,
      eq_iff s "DEBUGs",
      eq_iff s "INFO",
      eq_iff s "WARN",
      eq_iff s "ERROR",
      eq_iff s "FATAL",
    )
