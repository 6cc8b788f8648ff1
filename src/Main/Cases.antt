-- ===== src/Main/Cases.antt =====
-- Splitting a run where src/posixMain.cpp branches.
use smerp.Base.{◌≡◌, refl, Bool, true, false, Option, none, some, if◌then◌else◌}
use smerp.Main.{Run}

pub either :
    (P : Run → Type 0) (b : Bool) (x y : Run)
    → (b ≡ true → P x)
    → (b ≡ false → P y)
    → P (if b then x else y)
either P true x y f g = f refl
either P false x y f g = g refl

pub either_option :
    {A : Type 0} (P : Run → Type 0) (o : Option A) (x : Run) (f : A → Run)
    → (o ≡ none → P x)
    → ((a : A) → o ≡ some a → P (f a))
    → P (elim o [ none ↦ x | some a ↦ f a ])
either_option P none x f g h = g refl
either_option P (some a) x f g h = h a refl
