-- ===== src/Prelude/Failing.antt =====
-- Steps that may fail, and loops of them.
use mathlib.Core.Path.{◌≡◌, refl, subst}
use mathlib.Core.Bool.{Bool, true, false}
use mathlib.Core.Option.{Option, none, some}
use mathlib.Core.List.{List, [], ◌∷◌}

-- An exception is none.
infixl 5 ◌>>=◌ ◌>>◌
abbrev pub ◌>>=◌ {ℓ κ} : {A : Type ℓ} {B : Type κ} → Option A → (A → Option B) → Option B
none >>= f = none
some a >>= f = f a

abbrev pub ◌>>◌ {ℓ} : {B : Type ℓ} → Option (Unit {0}) → Option B → Option B
m >> k = m >>= λ _. k

-- `if not test: raise`
abbrev pub require : Bool → Option (Unit {0})
require true = some tt
require false = none

pub >>=-some {ℓ κ} :
    {A : Type ℓ} {B : Type κ} (m : Option A) (f : A → Option B) {b : B}
    → (m >>= f) ≡ some b
    → (a : A) × (m ≡ some a) × (f a ≡ some b)
>>=-some (some a) f h = (a, refl, h)
>>=-some none f h = cc

pub require-some {ℓ} :
    {A : Type ℓ} (b : Bool) (m : Option A) {a : A}
    → (require b >> m) ≡ some a
    → (b ≡ true) × (m ≡ some a)
require-some true m h = (refl, h)
require-some false m h = cc

-- A loop that changes a state, or stops with an exception.
unfoldable pub fold {ℓ κ} : {A : Type ℓ} {S : Type κ} → (A → S → Option S) → List A → S → Option S
fold f [] s = some s
fold f (x ∷ xs) s = f x s >>= fold f xs

module _ {ℓ κ} {A : Type ℓ} {S : Type κ} where
  -- What a round keeps, the loop keeps.
  pub fold-keeps {μ} :
      (P : S → Type μ) (f : A → S → Option S)
      → ((x : A) (s t : S) → P s → f x s ≡ some t → P t)
      → (xs : List A) (s t : S) → P s
      → fold f xs s ≡ some t
      → P t
  unfolding fold
  fold-keeps P f step [] s t p h = let same : s ≡ t = cc in subst P same p
  fold-keeps P f step (x ∷ xs) s t p h =
      let (u, here, rest) = >>=-some (f x s) (fold f xs) h in
      fold-keeps P f step xs u t (step x s u p here) rest

  -- What two rounds keep between their states, two loops over one list keep.
  pub fold-related {ν μ} :
      {T : Type ν} (R : S → T → Type μ) (f : A → S → Option S) (g : A → T → Option T)
      → ((x : A) (s s' : S) (t t' : T) → R s t → f x s ≡ some s' → g x t ≡ some t' → R s' t')
      → (xs : List A) (s s' : S) (t t' : T) → R s t
      → fold f xs s ≡ some s'
      → fold g xs t ≡ some t'
      → R s' t'
  unfolding fold
  fold-related R f g step [] s s' t t' r h k =
      let same : s ≡ s' = cc in
      let same' : t ≡ t' = cc in subst (λ u. R u t') same (subst (R s) same' r)
  fold-related R f g step (x ∷ xs) s s' t t' r h k =
      let (u, here, rest) = >>=-some (f x s) (fold f xs) h in
      let (v, here', rest') = >>=-some (g x t) (fold g xs) k in
      fold-related R f g step xs u s' v t' (step x s u t v r here here') rest rest'
