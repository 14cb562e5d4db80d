-- ===== src/Security/Reached.antt =====
-- Whatever happens on the panel, in whatever order the replies come.
use winkd.Security.Steps.{Steps}
