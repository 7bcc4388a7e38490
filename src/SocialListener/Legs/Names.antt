-- ===== src/SocialListener/Legs/Names.antt =====
-- The names of legs: labels and stances read back.
use matp.Base.{false, ◌&&◌, ◌≡◌, some, map, arith}
use matp.SocialListener.Legs.{Legs, side_name, from_sides, from_stance, open_sides, label}

-- The names of the open sides give the legs back.
pub from_sides-open_sides : (l : Legs) → from_sides (map side_name (open_sides l)) ≡ l
unfolding from_sides open_sides
from_sides-open_sides l = ground arith

-- The label of legs that are not both open, read as a stance, gives the legs back.
pub from_stance-label : (l : Legs) → l.long && l.short ≡ false → from_stance (some (label l)) ≡ l
unfolding from_stance label
from_stance-label l h = ground arith

-- Two leg states with one label are the same: the audit row's label loses nothing.
pub label-injective : (l m : Legs) → label l ≡ label m → l ≡ m
unfolding label
label-injective l m e = ground arith
