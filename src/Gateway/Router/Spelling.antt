-- ===== src/Gateway/Router/Spelling.antt =====
-- One key, many budgets: the authentication trims what follows the scheme, and the rate limiter
-- counts by the whole header.
use xend.Common.{ℕ, ◌++◌, replicate}
use xend.Common.Text.{Text, text}

-- The header with `n` more spaces between the scheme and the key.
unfoldable pub spelling : ℕ → Text → Text
spelling n key = text "Bearer " ++ (replicate n 32 ++ key)
