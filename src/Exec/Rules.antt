-- ===== src/Exec/Rules.antt =====
-- What holds of every call that a run makes, and of what it returns.
use garden_extension_f5_loca.Prelude.{
  All, All-append, All-imp, Bool, List, [], false, if◌then◌else◌, map, refl, true, ◌++◌, ◌∷◌, ◌≡◌,
}
use garden_extension_f5_loca.Exec.{
  Done, Error, Exec, Result, attempt, call, err, lift, ok, pure, raise, resume, unless_missing, via,
  wrapping, ◌>>=◌,
}

-- Every call that `m` makes, on any answers of the provider, satisfies `P`.
pub record Emits {E W A : Type 0} (P : E → Type 0) (m : Exec E W A) : Type 0 where
  pub at : (w : W) → All P (m w).trace

module _ {E W A : Type 0} {P : E → Type 0} where
  pub Emits-pure : (a : A) → Emits P (pure {W = W} a)
  Emits-pure a = record { at = λ w. tt }

  pub Emits-raise : (e : Error) → Emits P (raise {W = W} {A = A} e)
  Emits-raise e = record { at = λ w. tt }

  pub Emits-lift : (r : Result A) → Emits P (lift {W = W} r)
  Emits-lift r = record { at = λ w. tt }

  pub Emits-call :
      (op : W → Result A × W) (event : Result A → E)
      → ((r : Result A) → P (event r))
      → Emits P (call op event)
  Emits-call op event h = record { at = λ w. (h (op w).0, tt) }

  pub Emits-attempt : (m : Exec E W A) → Emits P m → Emits P (attempt m)
  Emits-attempt m h = record { at = h.at }

  pub Emits-wrapping : (f : Error → Error) (m : Exec E W A) → Emits P m → Emits P (wrapping f m)
  Emits-wrapping f m h = record { at = h.at }

  pub Emits-if :
      (b : Bool) (m n : Exec E W A)
      → (b ≡ true → Emits P m)
      → (b ≡ false → Emits P n)
      → Emits P (if b then m else n)
  Emits-if true m n h k = h refl
  Emits-if false m n h k = k refl

module _ {E W : Type 0} {P : E → Type 0} where
  pub Emits-unless_missing :
      (f : Error → Error) (m : Exec E W Done) → Emits P m → Emits P (unless_missing f m)
  Emits-unless_missing f m h = record { at = h.at }

module _ {E W A B : Type 0} {P : E → Type 0} where
  -- The rest of the block may use that `r` is not an error.
  Emits-resume :
      (r : Result A) (f : A → Exec E W B) (w : W)
      → ((a : A) → r ≡ ok a → Emits P (f a))
      → All P (resume r f w).trace
  Emits-resume (ok a) f w h = (h a refl).at w
  Emits-resume (err e) f w h = tt

  pub Emits-bind :
      (m : Exec E W A) (f : A → Exec E W B)
      → Emits P m
      → ((a : A) → Emits P (f a))
      → Emits P (m >>= f)
  unfolding ◌>>=◌
  Emits-bind m f h k = record {
    at = λ w.
        let r = m w in
        All-append P r.trace _ (h.at w) (Emits-resume r.reply f r.world (λ a e. k a));
  }

  pub Emits-bind-lift :
      (r : Result A) (f : A → Exec E W B)
      → ((a : A) → r ≡ ok a → Emits P (f a))
      → Emits P (lift r >>= f)
  unfolding ◌>>=◌
  Emits-bind-lift r f k = record { at = λ w. Emits-resume r f w k }

module _ {E W A B : Type 0} {P : E → Type 0} {Q : A → Type 0} where
  -- The rest of the block may use what holds of the first step's value.
  pub Emits-bind-post :
      (m : Exec E W A) (f : A → Exec E W B)
      → Emits P m
      → ((w : W) (a : A) → (m w).reply ≡ ok a → Q a)
      → ((a : A) → Q a → Emits P (f a))
      → Emits P (m >>= f)
  unfolding ◌>>=◌
  Emits-bind-post m f h q k = record {
    at = λ w.
        let r = m w in
        All-append P r.trace _ (h.at w) (Emits-resume r.reply f r.world (λ a e. k a (q w a e)));
  }

pub Emits-imp :
    {E W A : Type 0} {P Q : E → Type 0} (m : Exec E W A)
    → ((e : E) → P e → Q e)
    → Emits P m
    → Emits Q m
Emits-imp {P} {Q} m h k = record { at = λ w. All-imp P Q (m w).trace h (k.at w) }

pub All-map :
    {E F : Type 0} (P : F → Type 0) (note : E → F) (calls : List E)
    → All (λ e. P (note e)) calls
    → All P (map note calls)
All-map P note [] h = tt
All-map P note (e ∷ calls) h = (h.0, All-map P note calls h.1)

pub Emits-via :
    {E F W A : Type 0} {P : F → Type 0} (note : E → F) (m : Exec E W A)
    → Emits (λ e. P (note e)) m
    → Emits P (via note m)
Emits-via {P} note m h = record { at = λ w. All-map P note (m w).trace (h.at w) }

pub ruleset emits_rules = (
  Emits-pure, Emits-raise, Emits-lift, Emits-attempt, Emits-wrapping, Emits-unless_missing,
  Emits-if, Emits-bind,
)

-- Where `m` returns `a`, its calls and `a` satisfy `Q`.
pub record Yields {E W A : Type 0} (Q : List E → A → Type 0) (m : Exec E W A) : Type 0 where
  pub at : (w : W) (a : A) → (m w).reply ≡ ok a → Q (m w).trace a

module _ {E W A : Type 0} {Q : List E → A → Type 0} where
  pub Yields-raise : (e : Error) → Yields Q (raise {W = W} e)
  Yields-raise e = record { at = λ w a h. cc }

  pub Yields-if :
      (b : Bool) (m n : Exec E W A)
      → (b ≡ true → Yields Q m)
      → (b ≡ false → Yields Q n)
      → Yields Q (if b then m else n)
  Yields-if true m n h k = h refl
  Yields-if false m n h k = k refl

-- What `Q` says of the last calls it says of all.
abbrev pub IsSuffixClosed : {E A : Type 0} → (List E → A → Type 0) → Type 0
IsSuffixClosed {E} {A} Q = (calls t : List E) (a : A) → Q t a → Q (calls ++ t) a

module _ {E W A B : Type 0} {Q : List E → B → Type 0} where
  Yields-resume :
      (calls : List E) (r : Result A) (f : A → Exec E W B) (w : W) (b : B)
      → IsSuffixClosed Q
      → ((a : A) → Yields Q (f a))
      → (resume r f w).reply ≡ ok b
      → Q (calls ++ (resume r f w).trace) b
  Yields-resume calls (ok a) f w b s k h = s calls _ b ((k a).at w b h)
  Yields-resume calls (err e) f w b s k h = cc

  pub Yields-bind :
      (m : Exec E W A) (f : A → Exec E W B)
      → IsSuffixClosed Q
      → ((a : A) → Yields Q (f a))
      → Yields Q (m >>= f)
  unfolding ◌>>=◌
  Yields-bind m f s k = record {
    at = λ w b h. let r = m w in Yields-resume r.trace r.reply f r.world b s k h;
  }

  pub Yields-bind-lift :
      (r : Result A) (f : A → Exec E W B)
      → ((a : A) → r ≡ ok a → Yields Q (f a))
      → Yields Q (lift r >>= f)
  unfolding ◌>>=◌
  Yields-bind-lift (ok a) f k = k a refl
  Yields-bind-lift (err e) f k = record { at = λ w b h. cc }

-- A block that succeeds is its first step and the rest, both of which succeed.
pub record Steps {E W A B : Type 0} (m : Exec E W A) (f : A → Exec E W B) (w : W) (b : B)
    : Type 0 where
  pub value : A
  pub first : (m w).reply ≡ ok value
  pub rest : (f value (m w).world).reply ≡ ok b
  pub trace : (◌>>=◌ m f w).trace ≡ (m w).trace ++ (f value (m w).world).trace

module _ {E W A B : Type 0} where
  resume-Steps :
      (calls : List E) (r : Result A) (f : A → Exec E W B) (w : W) (b : B)
      → (resume r f w).reply ≡ ok b
      → (a : A) × (r ≡ ok a)
        × ((f a w).reply ≡ ok b)
        × (calls ++ (resume r f w).trace ≡ calls ++ (f a w).trace)
  resume-Steps calls (ok a) f w b h = (a, refl, h, refl)
  resume-Steps calls (err e) f w b h = cc

  pub bind-Steps :
      (m : Exec E W A) (f : A → Exec E W B) (w : W) (b : B)
      → (◌>>=◌ m f w).reply ≡ ok b
      → Steps m f w b
  unfolding ◌>>=◌
  bind-Steps m f w b h =
      let r = m w in
      let (a, first, rest, trace) = resume-Steps r.trace r.reply f r.world b h in
      record { value = a; first = first; rest = rest; trace = trace }
