-- ===== src/Runtime/Start/Attempts.antt =====
-- What a run of code that may fail or panic comes to, step by step.
use flowd.Base.{◌≡◌, refl, List, [], ◌∷◌, All}
use flowd.Runtime.Start.{Attempt, returns, fails, panics, ◌>>=◌, ◌>>◌}

-- A value is returned, and `P` holds of it.
abbrev pub Returns : {A : Type 0} → (A → Type 0) → Attempt A → Type 0
Returns P (returns a) = P a
Returns P (fails e) = ⊥
Returns P panics = ⊥

-- A value or an error is returned.
abbrev pub NoPanic : {A : Type 0} → Attempt A → Type 0
NoPanic (returns a) = Unit
NoPanic (fails e) = Unit
NoPanic panics = ⊥

pub Returns-bind :
    {A B : Type 0} (P : A → Type 0) (Q : B → Type 0) (m : Attempt A) (f : A → Attempt B)
    → Returns P m
    → ((a : A) → P a → Returns Q (f a))
    → Returns Q (m >>= f)
Returns-bind P Q (returns a) f p q = q a p
Returns-bind P Q (fails e) f p q = absurd p
Returns-bind P Q panics f p q = absurd p

pub NoPanic-bind :
    {A B : Type 0} (m : Attempt A) (f : A → Attempt B)
    → NoPanic m
    → ((a : A) → NoPanic (f a))
    → NoPanic (m >>= f)
NoPanic-bind (returns a) f p q = q a
NoPanic-bind (fails e) f p q = tt
NoPanic-bind panics f p q = absurd p

pub NoPanic-after :
    {A B : Type 0} (P : A → Type 0) (m : Attempt A) (f : A → Attempt B)
    → Returns P m
    → ((a : A) → P a → NoPanic (f a))
    → NoPanic (m >>= f)
NoPanic-after P (returns a) f p q = q a p
NoPanic-after P (fails e) f p q = absurd p
NoPanic-after P panics f p q = absurd p

pub All-both :
    {A : Type 0} (P Q R : A → Type 0) (xs : List A)
    → ((x : A) → P x → Q x → R x)
    → All P xs
    → All Q xs
    → All R xs
All-both P Q R [] f p q = tt
All-both P Q R (x ∷ xs) f p q = (f x p.0 q.0, All-both P Q R xs f p.1 q.1)

pub Returns-weaken :
    {A : Type 0} (P Q : A → Type 0) (m : Attempt A)
    → Returns P m
    → ((a : A) → P a → Q a)
    → Returns Q m
Returns-weaken P Q (returns a) p f = f a p
Returns-weaken P Q (fails e) p f = absurd p
Returns-weaken P Q panics p f = absurd p

-- An error is returned, or a value of which `P` holds.
abbrev pub Lands : {A : Type 0} → (A → Type 0) → Attempt A → Type 0
Lands P (returns a) = P a
Lands P (fails e) = Unit
Lands P panics = ⊥

pub Lands-bind :
    {A B : Type 0} (P : A → Type 0) (m : Attempt A) (f : A → Attempt B)
    → Lands P m
    → ((a : A) → P a → NoPanic (f a))
    → NoPanic (m >>= f)
Lands-bind P (returns a) f p q = q a p
Lands-bind P (fails e) f p q = tt
Lands-bind P panics f p q = absurd p

pub Lands-after :
    {A : Type 0} (c : Attempt (Unit {0})) (a : A) → NoPanic c → Lands (λ b. b ≡ a) (c >> returns a)
Lands-after (returns u) a p = refl
Lands-after (fails e) a p = tt
Lands-after panics a p = absurd p

-- A panic is let pass.
abbrev pub Holds : {A : Type 0} → (A → Type 0) → Attempt A → Type 0
Holds P (returns a) = P a
Holds P _ = Unit

pub Holds-bind :
    {A B : Type 0} (P : A → Type 0) (Q : B → Type 0) (m : Attempt A) (f : A → Attempt B)
    → Holds P m
    → ((a : A) → P a → Holds Q (f a))
    → Holds Q (m >>= f)
Holds-bind P Q (returns a) f p q = q a p
Holds-bind P Q (fails e) f p q = tt
Holds-bind P Q panics f p q = tt

pub Holds-weaken :
    {A : Type 0} (P Q : A → Type 0) (m : Attempt A) → Holds P m → ((a : A) → P a → Q a) → Holds Q m
Holds-weaken P Q (returns a) p f = f a p
Holds-weaken P Q (fails e) p f = tt
Holds-weaken P Q panics p f = tt

pub Holds-any : {A : Type 0} (m : Attempt A) → Holds (λ a. Unit) m
Holds-any (returns a) = tt
Holds-any (fails e) = tt
Holds-any panics = tt
