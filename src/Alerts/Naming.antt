-- ===== src/Alerts/Naming.antt =====
-- The notices of a check of src/alerts/alerts.c that name a bit of an error register.
use airies_ups_c.Base.{List, [], ◌∷◌, if◌then◌else◌}
use airies_ups_c.Base.Text.{is_some}
use airies_ups_c.Base.Double.{Double}
use airies_ups_c.Alerts.{Notice}

-- The notices with a name.
unfoldable pub naming : List Notice → List Notice
naming [] = []
naming (n ∷ notices) = let rest = naming notices in if is_some n.detail then n ∷ rest else rest
