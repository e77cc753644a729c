-- ===== src/Admin/Gives.antt =====
-- What is claimed of a result where there is one, carried through the steps of an edit.
use fileshare.Prelude.{◌≡◌, refl, subst, Bool, true, false}
use fileshare.Admin.{RefusalKind, Result, done, failed, ◌>>=◌, refuse_if}

abbrev pub Gives : {A : Type 0} → (A → Type 0) → Result A → Type 0
Gives Q (done a) = Q a
Gives Q (failed e) = Unit

pub Gives-bind :
    {A B : Type 0} (P : A → Type 0) (Q : B → Type 0) (f : A → Result B) (r : Result A)
    → Gives P r
    → ((a : A) → P a → Gives Q (f a))
    → Gives Q (r >>= f)
Gives-bind P Q f (done a) p h = h a p
Gives-bind P Q f (failed e) p h = tt

pub refuse_if-Gives : (b : Bool) (k : RefusalKind) → Gives (λ u. b ≡ false) (refuse_if b k)
refuse_if-Gives true k = tt
refuse_if-Gives false k = refl

-- After a test that did not refuse.
pub Gives-guard :
    {B : Type 0} (Q : B → Type 0) (b : Bool) (k : RefusalKind) (f : Unit → Result B)
    → (b ≡ false → Gives Q (f tt))
    → Gives Q (refuse_if b k >>= f)
Gives-guard Q true k f h = tt
Gives-guard Q false k f h = h refl

-- What a result is known to be, beside what it gives.
pub Gives-self : {A : Type 0} (r : Result A) → Gives (λ a. r ≡ done a) r
Gives-self (done a) = refl
Gives-self (failed e) = tt

pub Gives-done : {A : Type 0} (Q : A → Type 0) (r : Result A) (a : A) → Gives Q r → r ≡ done a → Q a
Gives-done Q r a g q = subst (Gives Q) q g

pub Gives-map :
    {A : Type 0} (P Q : A → Type 0) (r : Result A) → Gives P r → ((a : A) → P a → Q a) → Gives Q r
Gives-map P Q (done a) p h = h a p
Gives-map P Q (failed e) p h = tt
