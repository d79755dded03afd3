-- ===== src/Docker/Quiet.antt =====
-- Actions of the Docker provider that change neither its state nor a task, and give no address back.
use ironbird.Base.{◌≡◌, refl, ◌∙◌, inr, String, Bool, true, false, List, [], ◌∷◌, In, if◌then◌else◌}
use ironbird.Base.Action.{Result, ok, err, pure, raise, lift, gets, modify, continue, ◌>>=◌}
use ironbird.Docker.Types.{
  World, Docker, Error, Call, Log, allocate, allocate_next, request, observe, ignore,
}

-- The addresses that were given out.
unfoldable pub taken : Log → List String
taken [] = []
taken (allocate ip (ok u) ∷ l) = ip ∷ taken l
taken (allocate_next (ok ip) ∷ l) = ip ∷ taken l
taken (_ ∷ l) = taken l

pub record SameState (v w : World) : Type 0 where
  pub provider : w.provider ≡ v.provider
  pub cells : w.cells ≡ v.cells
  pub next : w.next ≡ v.next
  pub grows : (ip : String) → In ip (taken v.log) → In ip (taken w.log)

pub SameState-refl : (w : World) → SameState w w
SameState-refl w = record { provider = refl; cells = refl; next = refl; grows = λ ip h. h }

pub SameState-trans : {u v w : World} → SameState u v → SameState v w → SameState u w
SameState-trans a b = record {
  provider = b.provider ∙ a.provider;
  cells = b.cells ∙ a.cells;
  next = b.next ∙ a.next;
  grows = λ ip h. b.grows ip (a.grows ip h);
}

taken-cons : (e : Call) (l : Log) (ip : String) → In ip (taken l) → In ip (taken (e ∷ l))
unfolding taken
taken-cons (allocate ip' (ok u)) l ip h = inr h
taken-cons (allocate_next (ok ip')) l ip h = inr h
taken-cons _ l ip h = h

pub SameState-log : (w : World) (e : Call) → SameState w (record w { log = e ∷ w.log })
SameState-log w e = record {
  provider = refl;
  cells = refl;
  next = refl;
  grows = taken-cons e w.log;
}

pub record Quiet {A : Type 0} (m : Docker A) : Type 0 where
  pub at : (w : World) → SameState w (m w).1

module _ {A : Type 0} where
  pub Quiet-request :
      (ask : Log → Result Error A) (entry : Result Error A → Call) → Quiet (request ask entry)
  unfolding request
  Quiet-request ask entry = record { at = λ w. SameState-log w _ }

  pub Quiet-observe :
      (ask : Log → Result Error A) (entry : Result Error A → Call) → Quiet (observe ask entry)
  unfolding observe
  Quiet-observe ask entry = record { at = λ w. SameState-log w _ }

  pub Quiet-ignore : (m : Docker A) → Quiet m → Quiet (ignore m)
  unfolding ignore
  Quiet-ignore m q = record { at = q.at }

  pub Quiet-pure : (a : A) → Quiet (pure a)
  unfolding pure
  Quiet-pure a = record { at = SameState-refl }

  pub Quiet-raise : (e : Error) → Quiet (raise {A = A} e)
  unfolding raise
  Quiet-raise e = record { at = SameState-refl }

  pub Quiet-lift : (r : Result Error A) → Quiet (lift r)
  unfolding lift
  Quiet-lift r = record { at = SameState-refl }

  pub Quiet-gets : (f : World → A) → Quiet (gets f)
  unfolding gets
  Quiet-gets f = record { at = SameState-refl }

  pub Quiet-if : (b : Bool) (m n : Docker A) → Quiet m → Quiet n → Quiet (if b then m else n)
  Quiet-if true m n qm qn = qm
  Quiet-if false m n qm qn = qn

pub Quiet-logged : (e : Call) → Quiet (modify (λ w. record w { log = e ∷ w.log }))
unfolding modify
Quiet-logged e = record { at = λ w. SameState-log w e }

module _ {A B : Type 0} where
  Quiet-continue :
      (r : Result Error A) (f : A → Docker B) (w : World)
      → ((a : A) → Quiet (f a))
      → SameState w (continue r f w).1
  Quiet-continue (ok a) f w q = (q a).at w
  Quiet-continue (err e) f w q = SameState-refl w

  pub Quiet-bind :
      (m : Docker A) (f : A → Docker B) → Quiet m → ((a : A) → Quiet (f a)) → Quiet (m >>= f)
  unfolding ◌>>=◌
  Quiet-bind m f qm qf = record {
    at = λ w. SameState-trans (qm.at w) (Quiet-continue (m w).0 f (m w).1 qf);
  }
