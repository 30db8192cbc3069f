-- ===== src/Collation.antt =====
-- include/iron_query/collation.hpp and src/collation.cpp.
use iron_query.Prelude.{Text, lit}

pub record Collation : Type 0 where
  pub name_ : Text

unfoldable pub from_raw : Text → Collation
from_raw name = record { name_ = name }

unfoldable pub to_string : Collation → Text
to_string c = c.name_

unfoldable pub default_collation : Collation
unfolding from_raw
default_collation = from_raw (lit "\"default\"")

unfoldable pub c_collation : Collation
unfolding from_raw
c_collation = from_raw (lit "\"C\"")

unfoldable pub posix : Collation
unfolding from_raw
posix = from_raw (lit "\"POSIX\"")
