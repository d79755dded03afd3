-- ===== src/Base/Triple.antt =====
-- Triples for actions: a precondition, what holds beside a value, and what holds after an error.
use ironbird.Base.Action.{Result, ok, err, Action, continue, ◌>>=◌}

abbrev pub Post : {S E A : Type 0} → (S → Type 0) → (A → S → Type 0) → Result E A → S → Type 0
Post Err Q (ok a) w = Q a w
Post Err Q (err e) w = Err w

pub record Ensures {S E A : Type 0} (Err P : S → Type 0) (m : Action S E A) (Q : A → S → Type 0)
    : Type 0 where
  pub at : (w : S) → P w → Post Err Q (m w).0 (m w).1

module _ {S E A B : Type 0} {Err : S → Type 0} {Q : A → S → Type 0} {R : B → S → Type 0} where
  Ensures-continue :
      (r : Result E A) (f : A → Action S E B) (w : S)
      → Post Err Q r w
      → ((a : A) → Ensures Err (Q a) (f a) R)
      → Post Err R (continue r f w).0 (continue r f w).1
  Ensures-continue (ok a) f w h g = (g a).at w h
  Ensures-continue (err e) f w h g = h

  pub Ensures-bind :
      {P : S → Type 0} (m : Action S E A) (f : A → Action S E B)
      → Ensures Err P m Q
      → ((a : A) → Ensures Err (Q a) (f a) R)
      → Ensures Err P (m >>= f) R
  unfolding ◌>>=◌
  Ensures-bind m f hm hf = record { at = λ w p. Ensures-continue (m w).0 f (m w).1 (hm.at w p) hf }

pub Post-constant :
    {S E A : Type 0} (Err P : S → Type 0) (r : Result E A) (w : S)
    → (P w → Err w)
    → P w
    → Post Err (λ _. P) r w
Post-constant Err P (ok a) w f p = p
Post-constant Err P (err e) w f p = f p

pub Post-impl :
    {S E A : Type 0} (Err : S → Type 0) (Q R : A → S → Type 0) (r : Result E A) (w : S)
    → ((a : A) → Q a w → R a w)
    → Post Err Q r w
    → Post Err R r w
Post-impl Err Q R (ok a) w f p = f a p
Post-impl Err Q R (err e) w f p = p

pub Ensures-impl :
    {S E A : Type 0} (Err P : S → Type 0) (Q R : A → S → Type 0) (m : Action S E A)
    → ((a : A) (w : S) → Q a w → R a w)
    → Ensures Err P m Q
    → Ensures Err P m R
Ensures-impl Err P Q R m f h = record {
  at = λ w p. Post-impl Err Q R (m w).0 (m w).1 (λ a. f a (m w).1) (h.at w p);
}

Post-err :
    {S E A : Type 0} (Err Err' : S → Type 0) (Q : A → S → Type 0) (r : Result E A) (w : S)
    → (Err w → Err' w)
    → Post Err Q r w
    → Post Err' Q r w
Post-err Err Err' Q (ok a) w f p = p
Post-err Err Err' Q (err e) w f p = f p

pub Ensures-err :
    {S E A : Type 0} (Err Err' P : S → Type 0) (Q : A → S → Type 0) (m : Action S E A)
    → ((w : S) → Err w → Err' w)
    → Ensures Err P m Q
    → Ensures Err' P m Q
Ensures-err Err Err' P Q m f h = record {
  at = λ w p. Post-err Err Err' Q (m w).0 (m w).1 (f (m w).1) (h.at w p);
}
