-- ===== src/World/Within.antt =====
-- src/sync/email.rs: what a function of a pass does to the state, as a relation between the state
-- it starts in and the state it leaves, with or without an error.
use jmapsyncd.Base.{◌≡◌, refl, ◌∙◌, Bool, true, false, Option, none, some, List, [], ◌∷◌}
use jmapsyncd.Base.Result.{Result, ok, err}
use jmapsyncd.World.{
  Outside, World, Error, M, ◌>>=◌, next, pure, fail, gets, modify, answer, lift, when, for_each,
}

-- The disk and the database are left alone.
abbrev pub Untouched : (O : Outside) → World O → World O → Type 0
Untouched O w w' = (w'.disk ≡ w.disk) × (w'.db ≡ w.db)

-- Both halves of a sequence that succeeds succeed.
pub next-ok :
    {O : Outside} {A B : Type 0} (r : Result Error A × World O) (f : A → M O B) {b : B}
    {w' : World O}
    → next r f ≡ (ok b, w')
    → (a : A) × (w : World O) × (r ≡ (ok a, w)) × (f a w ≡ (ok b, w'))
next-ok (ok a, w) f h = (a, w, refl, h)
next-ok (err e, w) f h = cc

pub bind-ok :
    {O : Outside} {A B : Type 0} (m : M O A) (f : A → M O B) (w : World O) {b : B} {w' : World O}
    → (m >>= f) w ≡ (ok b, w')
    → (a : A) × (v : World O) × (m w ≡ (ok a, v)) × (f a v ≡ (ok b, w'))
unfolding ◌>>=◌
bind-ok m f w h = next-ok (m w) f h

module _ {O : Outside} where
  pub record IsOrder (R : World O → World O → Type 0) : Type 0 where
    pub reflexive : (w : World O) → R w w
    pub transitive : (u v w : World O) → R u v → R v w → R u w

  pub record Within {A : Type 0} (R : World O → World O → Type 0) (m : M O A) : Type 0 where
    pub at : (w : World O) → R w (m w).1

  module _ {R : World O → World O → Type 0} (o : IsOrder R) where
    Within-next :
        {A B : Type 0} (f : A → M O B) (w : World O) (r : Result Error A × World O)
        → R w r.1
        → ((a : A) → Within R (f a))
        → R w (next r f).1
    Within-next f w (ok a, w') h k = o.transitive w w' (f a w').1 h ((k a).at w')
    Within-next f w (err e, w') h k = h

    pub Within-bind :
        {A B : Type 0} {m : M O A} {f : A → M O B}
        → Within R m
        → ((a : A) → Within R (f a))
        → Within R (m >>= f)
    Within-bind {m = m} {f = f} h k =
        unfold ◌>>=◌ in record { at = λ w. Within-next f w (m w) (h.at w) k }

    pub Within-pure : {A : Type 0} (a : A) → Within R (pure a)
    Within-pure a = unfold pure in record { at = o.reflexive }

    pub Within-fail : {A : Type 0} (e : Error) → Within {A = A} R (fail e)
    Within-fail e = unfold fail in record { at = o.reflexive }

    -- A change of the state that keeps within the relation.
    pub Within-modify : (f : World O → World O) → ((w : World O) → R w (f w)) → Within R (modify f)
    unfolding modify
    Within-modify f h = record { at = h }

    pub Within-gets : {A : Type 0} (f : World O → A) → Within R (gets f)
    Within-gets f = unfold gets in record { at = o.reflexive }

    pub Within-answer : {A : Type 0} (a : Option A) → Within R (answer a)
    unfolding answer pure fail
    Within-answer none = record { at = o.reflexive }
    Within-answer (some a) = record { at = o.reflexive }

    pub Within-lift : {A : Type 0} (r : Result Error A) → Within R (lift r)
    unfolding lift pure fail
    Within-lift (ok a) = record { at = o.reflexive }
    Within-lift (err e) = record { at = o.reflexive }

    pub Within-when : (c : Bool) {m : M O (Unit {0})} → Within R m → Within R (when c m)
    unfolding when pure
    Within-when true h = h
    Within-when false h = record { at = o.reflexive }

    pub Within-if :
        {A : Type 0} (c : Bool) {m n : M O A}
        → Within R m
        → Within R n
        → Within R (elim c [ true ↦ m | false ↦ n ])
    Within-if true h k = h
    Within-if false h k = k

    pub Within-option :
        {A B : Type 0} (a : Option A) {m : M O B} {f : A → M O B}
        → Within R m
        → ((x : A) → Within R (f x))
        → Within R (elim a [ none ↦ m | some x ↦ f x ])
    Within-option none h k = h
    Within-option (some x) h k = k x

    pub Within-for_each :
        {A : Type 0} (l : List A) {f : A → M O (Unit {0})}
        → ((a : A) → Within R (f a))
        → Within R (for_each l f)
    unfolding for_each
    Within-for_each [] h = Within-pure tt
    Within-for_each (a ∷ l) h = Within-bind (h a) (λ _. Within-for_each l h)

  pub Untouched-IsOrder : IsOrder (Untouched O)
  Untouched-IsOrder = record {
    reflexive = λ w. (refl, refl);
    transitive = λ u v w f g. (g.0 ∙ f.0, g.1 ∙ f.1);
  }
