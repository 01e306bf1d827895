-- ===== src/Capabilities/Json.antt =====
-- Stored `normalized_value`s and role fillers: any JSON value. A number carries its text as
-- `String(n)` gives it, when it is finite. A text is the list of its character codes.
use Prim.Native.Char.{code}
use package.text.Mathlib.Text.{◌==◌ as str_eq}
use uni.Prelude.{
  ℕ, Bool, ◌&&◌, ◌||◌, [], ◌∷◌, String, Option, none, some, if◌then◌else◌, leb, ◌==◌, all,
}
use uni.Capabilities.Decimal.{Text}

-- The codes of a literal.
abbrev pub codes : String → Text
codes String.[] = []
codes (String.◌∷◌ c s) = code c ∷ codes s

mutual
  pub data Json : Type 0 where
    null : Json
    bool : Bool → Json
    num : Option Text → Json
    text : Text → Json
    arr : Items → Json
    obj : Fields → Json

  pub data Items : Type 0 where
    nil : Items
    cons : Json → Items → Items

  pub data Fields : Type 0 where
    end : Fields
    field : String → Json → Fields → Fields

-- `record[key]`; a missing key reads as null, which every reader treats alike.
unfoldable pub get : String → Fields → Json
get key end = null
get key (field k v fs) = if str_eq k key then v else get key fs

-- The fields that `record[…]` may read: an array has none of the names asked for.
abbrev pub fields_of : Json → Option Fields
fields_of (obj fs) = some fs
fields_of (arr xs) = some end
fields_of _ = none

-- White space and line terminators, as `trim` cuts them.
abbrev pub is_space : ℕ → Bool
is_space c =
    (leb 9 c && leb c 13)
    || ((c == 32)
        || ((c == 160)
            || ((c == 0x1680)
                || ((leb 0x2000 c && leb c 0x200a)
                    || ((c == 0x2028)
                        || ((c == 0x2029)
                            || ((c == 0x202f)
                                || ((c == 0x205f) || ((c == 0x3000) || (c == 0xfeff))))))))))

-- `s.trim() === ''`
abbrev pub is_blank : Text → Bool
is_blank s = all is_space s
