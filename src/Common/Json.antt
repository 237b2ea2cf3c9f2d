-- ===== src/Common/Json.antt =====
-- JSON values as `JSON.parse` returns them, and the tests that the code makes of them. The members
-- of an object have distinct names and stand in the order of `Object.entries`.
use Prim.Native.Nat.{ℕ}
use mathlib.Core.Bool.{Bool, true, false}
use mathlib.Core.List.{List, [], ◌∷◌}
use mathlib.Core.Option.{Option, none, some}
use jsrproxy.Common.Tests.{leb, if◌then◌else◌, max_safe_integer, ◌==◌}
use jsrproxy.Common.Texts.{Text, text_eq}

-- A double that is a whole number and not negative, or any other double.
pub data Number : Type 0 where
  whole : ℕ → Number
  other : Number

mutual
  pub data Json : Type 0 where
    null : Json
    bool : Bool → Json
    num : Number → Json
    str : Text → Json
    arr : Elements → Json
    obj : Members → Json

  pub data Elements : Type 0 where
    nil : Elements
    element : Json → Elements → Elements

  pub data Members : Type 0 where
    end : Members
    member : Text → Json → Members → Members

unfoldable pub elements : Elements → List Json
elements nil = []
elements (element v vs) = v ∷ elements vs

unfoldable pub of_list : List Json → Elements
of_list [] = nil
of_list (v ∷ vs) = element v (of_list vs)

unfoldable pub entries : Members → List (Text × Json)
entries end = []
entries (member k v ms) = (k, v) ∷ entries ms

unfoldable pub of_entries : List (Text × Json) → Members
of_entries [] = end
of_entries ((k, v) ∷ ms) = member k v (of_entries ms)

unfoldable pub member_of : Text → Members → Option Json
member_of k end = none
member_of k (member j v ms) = if j == k then some v else member_of k ms

-- `value?.[key]` for the keys that the code reads: none of them is a property of an array, of a
-- text or of a prototype that has the type that the code asks for. `none` is `undefined`.
unfoldable pub field : Option Json → Text → Option Json
unfolding member_of
field (some (obj ms)) key = member_of key ms
field _ key = none

-- `typeof value === "string"`
unfoldable pub as_string : Option Json → Option Text
as_string (some (str s)) = some s
as_string _ = none

-- `Array.isArray(value)`
unfoldable pub as_array : Option Json → Option (List Json)
unfolding elements
as_array (some (arr vs)) = some (elements vs)
as_array _ = none

-- `typeof value === "number" && Number.isSafeInteger(value) && value >= 0`
unfoldable pub as_safe : Option Json → Option ℕ
as_safe (some (num (whole n))) = if leb n max_safe_integer then some n else none
as_safe _ = none

-- `value && typeof value === "object"`: an object or an array.
unfoldable pub is_object : Option Json → Bool
is_object (some (obj ms)) = true
is_object (some (arr vs)) = true
is_object _ = false
