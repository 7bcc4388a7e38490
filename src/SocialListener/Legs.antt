-- ===== src/SocialListener/Legs.antt =====
-- social-listener/app/legs.py: what the channel is recorded as holding in one asset, as two legs.
pub mod Names
use matp.Base.{Bool, false, Option, none, some, List, [], ◌∷◌, map, ◌==◌, length, any, keep}
use matp.Base.Text.{Text, codes, upper, join, text_eq}

pub data Side : Type 0 where
  long short : Side

abbrev pub side_name : Side → Text
side_name long = codes "LONG"
side_name short = codes "SHORT"

-- the tuple SIDES
abbrev pub sides : List Side
sides = long ∷ short ∷ []

unfoldable pub opposite : Side → Side
opposite long = short
opposite short = long

pub record Legs : Type 0 where
  pub long : Bool
  pub short : Bool

unfoldable pub from_sides : List Text → Legs
from_sides names = record {
  long = any (text_eq (codes "LONG")) (map upper names);
  short = any (text_eq (codes "SHORT")) (map upper names);
}

abbrev is_name : Side → Option Text → Bool
is_name s none = false
is_name s (some stance) = text_eq stance (side_name s)

unfoldable pub from_stance : Option Text → Legs
from_stance stance = record { long = is_name Side.long stance; short = is_name Side.short stance }

unfoldable pub is_open : Legs → Side → Bool
is_open l Side.long = l.long
is_open l Side.short = l.short

unfoldable pub open_sides : Legs → List Side
unfolding is_open
open_sides l = keep (is_open l) sides

-- the property `count`
unfoldable pub count : Legs → Prim.Native.Nat.ℕ
unfolding open_sides
count l = length (open_sides l)

unfoldable pub flat : Legs → Bool
unfolding count
flat l = count l == 0

abbrev first_of_one : List Side → Option Side
first_of_one (s ∷ []) = some s
first_of_one _ = none

unfoldable pub sole_open : Legs → Option Side
unfolding open_sides
sole_open l = first_of_one (open_sides l)

unfoldable pub with_side : Legs → Side → Bool → Legs
with_side l Side.long is_open = record l { long = is_open }
with_side l Side.short is_open = record l { short = is_open }

abbrev label_of : List Side → Text
label_of [] = codes "FLAT"
label_of (s ∷ rest) = join (codes "+") (map side_name (s ∷ rest))

unfoldable pub label : Legs → Text
unfolding open_sides
label l = label_of (open_sides l)
