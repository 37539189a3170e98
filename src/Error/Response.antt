-- ===== src/Error/Response.antt =====
-- What the HTTP response to an error shows of it.
use xend.Common.{◌≡◌, refl}
use xend.Error.{AppError, database, internal, into_response}

-- The errors whose detail is for the log only.
abbrev pub IsInternal : AppError → Type 0
IsInternal (database m) = Unit
IsInternal (internal m) = Unit
IsInternal e = ⊥

-- Two internal errors, whatever their detail, have the same response.
pub into_response_hides :
    (e f : AppError) → IsInternal e → IsInternal f → into_response e ≡ into_response f
unfolding into_response
into_response_hides (database m) (database n) h k = refl
into_response_hides (database m) (internal n) h k = refl
into_response_hides (internal m) (database n) h k = refl
into_response_hides (internal m) (internal n) h k = refl
into_response_hides (database m) _ h k = absurd k
into_response_hides (internal m) _ h k = absurd k
into_response_hides _ f h k = absurd h
