-- ===== src/Runtime/Agrees.antt =====
-- Actions that agree in every world, and the laws of sequencing.
use xend.Common.{◌≡◌, refl, Result, ok, err}
use xend.Error.{AppError}
use xend.Runtime.{World, M, pure, raise, lift, continue, ◌>>=◌}

abbrev pub Agrees : {A : Type 0} → M A → M A → Type 0
Agrees m n = (w : World) → m w ≡ n w

continue-Agrees :
    {A B : Type 0} (f g : A → M B) (r : Result A AppError × World)
    → ((a : A) → Agrees (f a) (g a))
    → continue f r ≡ continue g r
continue-Agrees f g (ok a, w) h = h a w
continue-Agrees f g (err e, w) h = refl

pub bind-Agrees :
    {A B : Type 0} (m : M A) (f g : A → M B)
    → ((a : A) → Agrees (f a) (g a))
    → Agrees (m >>= f) (m >>= g)
unfolding ◌>>=◌
bind-Agrees m f g h w = continue-Agrees f g (m w) h

continue_assoc :
    {A B C : Type 0} (f : A → M B) (g : B → M C) (r : Result A AppError × World)
    → continue g (continue f r) ≡ continue (λ a. f a >>= g) r
unfolding ◌>>=◌
continue_assoc f g (ok a, w) = refl
continue_assoc f g (err e, w) = refl

pub bind_assoc :
    {A B C : Type 0} (m : M A) (f : A → M B) (g : B → M C)
    → Agrees ((m >>= f) >>= g) (m >>= λ a. f a >>= g)
unfolding ◌>>=◌
bind_assoc m f g w = continue_assoc f g (m w)

pub pure_bind : {A B : Type 0} (a : A) (f : A → M B) → Agrees (pure a >>= f) (f a)
unfolding ◌>>=◌ pure
pure_bind a f w = refl

pub lift_bind : {A B : Type 0} (a : A) (f : A → M B) → Agrees (lift (ok a) >>= f) (f a)
unfolding ◌>>=◌ lift
lift_bind a f w = refl

pub lift_fails : {A B : Type 0} (e : AppError) (f : A → M B) → Agrees (lift (err e) >>= f) (raise e)
unfolding ◌>>=◌ lift raise
lift_fails e f w = refl
