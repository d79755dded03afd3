-- ===== src/Store/Keeps.antt =====
-- Predicates on the database that an action keeps, whether it fails or not.
use ironbird.Base.{String, Bool, true, false, Option, none, some, if◌then◌else◌}
use ironbird.Base.Action.{Result, ok, err, pure, raise, gets, modify, continue, ◌>>=◌}
use ironbird.Store.{Db, Stored, Error, marshal}
use ironbird.Store.Access.{marshal_set}

pub record Keeps (P : Db → Type 0) {A : Type 0} (m : Stored A) : Type 0 where
  pub at : (db : Db) → P db → P (m db).1

module _ (P : Db → Type 0) {A : Type 0} where
  pub Keeps-pure : (a : A) → Keeps P (pure a)
  unfolding pure
  Keeps-pure a = record { at = λ db p. p }

  pub Keeps-raise : (e : Error) → Keeps P (raise {A = A} e)
  unfolding raise
  Keeps-raise e = record { at = λ db p. p }

  pub Keeps-gets : (f : Db → A) → Keeps P (gets f)
  unfolding gets
  Keeps-gets f = record { at = λ db p. p }

  pub Keeps-marshal : (o : Option A) → Keeps P (marshal o)
  unfolding marshal
  Keeps-marshal none = Keeps-raise _
  Keeps-marshal (some a) = Keeps-pure a

  pub Keeps-if : (b : Bool) (m n : Stored A) → Keeps P m → Keeps P n → Keeps P (if b then m else n)
  Keeps-if true m n hm hn = hm
  Keeps-if false m n hm hn = hn

pub Keeps-modify :
    (P : Db → Type 0) (f : Db → Db) → ((db : Db) → P db → P (f db)) → Keeps P (modify f)
unfolding modify
Keeps-modify P f h = record { at = h }

module _ (P : Db → Type 0) {A B : Type 0} where
  Keeps-continue :
      (r : Result Error A) (f : A → Stored B) (db : Db)
      → ((a : A) → Keeps P (f a))
      → P db
      → P (continue r f db).1
  Keeps-continue (ok a) f db h p = (h a).at db p
  Keeps-continue (err e) f db h p = p

  pub Keeps-bind :
      (m : Stored A) (f : A → Stored B) → Keeps P m → ((a : A) → Keeps P (f a)) → Keeps P (m >>= f)
  unfolding ◌>>=◌
  Keeps-bind m f hm hf = record { at = λ db p. Keeps-continue (m db).0 f (m db).1 hf (hm.at db p) }

pub Keeps-marshal_set :
    (P : Db → Type 0) {A : Type 0} (text : A → Option String) (o : Option A)
    → Keeps P (marshal_set text o)
unfolding marshal_set
Keeps-marshal_set P text none = Keeps-pure P _
Keeps-marshal_set P text (some a) =
    Keeps-bind P _ _ (Keeps-marshal P (text a)) (λ t. Keeps-pure P (some t))
