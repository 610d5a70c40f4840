-- ===== src/Prelude/Hoare.antt =====
-- What an action needs of the state, what it gives with an answer, and what it keeps if it fails.
use mathlib.Core.Path.{◌≡◌, refl}
use mcp_server_allenheath_dl.Prelude.Errors.{Result, ok, err, panic, stuck, Holds}
use mcp_server_allenheath_dl.Prelude.Exec.{Exec, resume, ◌>>=◌}

module _ {S : Type 0} where
  -- `Q` of the answer and the state behind it, or `R` of the state behind a failure.
  abbrev pub Post : {A : Type 0} → (A → S → Type 0) → (S → Type 0) → Result A × S → Type 0
  Post Q R (ok a, s) = Q a s
  Post Q R (err e, s) = R s
  Post Q R (panic, s) = R s
  Post Q R (stuck, s) = R s

  abbrev pub Runs :
      {A : Type 0} → (S → Type 0) → Exec S A → (A → S → Type 0) → (S → Type 0) → Type 0
  Runs P m Q R = (s : S) → P s → Post Q R (m s)

  pub Post-resume :
      {A B : Type 0} (Q : A → S → Type 0) (Q' : B → S → Type 0) (R : S → Type 0) (f : A → Exec S B)
      (o : Result A × S)
      → ((a : A) → Runs (Q a) (f a) Q' R)
      → Post Q R o
      → Post Q' R (resume o.0 f o.1)
  Post-resume Q Q' R f (ok a, s) h p = h a s p
  Post-resume Q Q' R f (err e, s) h p = p
  Post-resume Q Q' R f (panic, s) h p = p
  Post-resume Q Q' R f (stuck, s) h p = p

  -- What the first action gives is what the rest needs.
  pub Runs-bind :
      {A B : Type 0} (P : S → Type 0) (Q : A → S → Type 0) (Q' : B → S → Type 0) (R : S → Type 0)
      (m : Exec S A) (f : A → Exec S B)
      → Runs P m Q R
      → ((a : A) → Runs (Q a) (f a) Q' R)
      → Runs P (m >>= f) Q' R
  Runs-bind P Q Q' R m f hm hf s p = Post-resume Q Q' R f (m s) hf (hm s p)

  pub Post-mono :
      {A : Type 0} (Q Q' : A → S → Type 0) (R R' : S → Type 0) (o : Result A × S)
      → ((a : A) (s : S) → Q a s → Q' a s)
      → ((s : S) → R s → R' s)
      → Post Q R o
      → Post Q' R' o
  Post-mono Q Q' R R' (ok a, s) hq hr p = hq a s p
  Post-mono Q Q' R R' (err e, s) hq hr p = hr s p
  Post-mono Q Q' R R' (panic, s) hq hr p = hr s p
  Post-mono Q Q' R R' (stuck, s) hq hr p = hr s p

  -- The outcome is right, whatever it is.
  pub Post-of :
      {A : Type 0} (Q : A → S → Type 0) (R : S → Type 0) (o : Result A × S)
      → R o.1
      → ((a : A) → o.0 ≡ ok a → Q a o.1)
      → Post Q R o
  Post-of Q R (ok a, s) r h = h a refl
  Post-of Q R (err e, s) r h = r
  Post-of Q R (panic, s) r h = r
  Post-of Q R (stuck, s) r h = r

  pub Post-ok :
      {A : Type 0} (Q : A → S → Type 0) (R : S → Type 0) (o : Result A × S) (a : A)
      → Post Q R o
      → o.0 ≡ ok a
      → Q a o.1
  Post-ok Q R (ok b, s) a p e = let same : b ≡ a = cc in rw same at p
  Post-ok Q R (err x, s) a p e = cc
  Post-ok Q R (panic, s) a p e = cc
  Post-ok Q R (stuck, s) a p e = cc

  -- What holds of the state behind either outcome.
  pub Post-state :
      {A : Type 0} (Q : A → S → Type 0) (R : S → Type 0) (o : Result A × S)
      → ((a : A) (s : S) → Q a s → R s)
      → Post Q R o
      → R o.1
  Post-state Q R (ok a, s) h p = h a s p
  Post-state Q R (err e, s) h p = p
  Post-state Q R (panic, s) h p = p
  Post-state Q R (stuck, s) h p = p

  -- What holds of the answer, if there is one.
  pub Post-Holds :
      {A : Type 0} (Q : A → S → Type 0) (R : S → Type 0) (P : A → Type 0) (o : Result A × S)
      → ((a : A) (s : S) → Q a s → P a)
      → Post Q R o
      → Holds P o.0
  Post-Holds Q R P (ok a, s) h p = h a s p
  Post-Holds Q R P (err e, s) h p = tt
  Post-Holds Q R P (panic, s) h p = tt
  Post-Holds Q R P (stuck, s) h p = tt

  -- What succeeds has come through its first action.
  pub resume-ok :
      {A B : Type 0} (f : A → Exec S B) (o : Result A × S) (b : B)
      → (resume o.0 f o.1).0 ≡ ok b
      → (a : A) × (s : S) × (o ≡ (ok a, s)) × ((f a s).0 ≡ ok b)
  resume-ok f (ok a, s) b e = (a, s, refl, e)
  resume-ok f (err x, s) b e = cc
  resume-ok f (panic, s) b e = cc
  resume-ok f (stuck, s) b e = cc
