-- ===== src/Exec/Ensures.antt =====
-- What a run's calls satisfy together with the value that it returns.
use mathlib.Core.Path.{subst}
use garden_extension_f5_loca.Prelude.{
  All, All-append, Bool, List, Option, String, [], false, if◌then◌else◌, none, refl, some, true,
  ◌++◌, ◌∷◌, ◌≡◌,
}
use garden_extension_f5_loca.Exec.{
  Error, Exec, Result, attempt, call, err, if_given, lift, ok, pure, raise, resume, via,
  with_manager, ◌>>=◌,
}
use garden_extension_f5_loca.Exec.Rules.{All-map, Emits}

abbrev pub Returns : {A : Type 0} → (A → Type 0) → Result A → Type 0
Returns Q (ok a) = Q a
Returns Q (err e) = Unit

-- Every call satisfies `P`, and a value that is returned satisfies `Q`.
pub record Ensures {E W A : Type 0} (P : E → Type 0) (Q : A → Type 0) (m : Exec E W A)
    : Type 0 where
  pub at : (w : W) → All P (m w).trace × Returns Q (m w).reply

pub Returns-imp :
    {A : Type 0} {Q : A → Type 0} (R : A → Type 0) (r : Result A)
    → ((a : A) → R a → Q a)
    → Returns R r
    → Returns Q r
Returns-imp R (ok a) h k = h a k
Returns-imp R (err e) h k = tt

pub All-any : {E : Type 0} (calls : List E) → All {0, 0} (λ e. Unit) calls
All-any [] = tt
All-any (e ∷ calls) = (tt, All-any calls)

Returns-intro :
    {A : Type 0} {Q : A → Type 0} (r : Result A) → ((a : A) → r ≡ ok a → Q a) → Returns Q r
Returns-intro (ok a) h = h a refl
Returns-intro (err e) h = tt

Returns-any : {A : Type 0} (r : Result A) → Returns (λ a. Unit) r
Returns-any (ok a) = tt
Returns-any (err e) = tt

module _ {E W A : Type 0} {P : E → Type 0} {Q : A → Type 0} where
  pub Ensures-pure : (a : A) → Q a → Ensures P Q (pure {W = W} a)
  Ensures-pure a q = record { at = λ w. (tt, q) }

  pub Ensures-raise : (e : Error) → Ensures P Q (raise {W = W} e)
  Ensures-raise e = record { at = λ w. (tt, tt) }

  pub Ensures-if :
      (b : Bool) (m n : Exec E W A)
      → (b ≡ true → Ensures P Q m)
      → (b ≡ false → Ensures P Q n)
      → Ensures P Q (if b then m else n)
  Ensures-if true m n h k = h refl
  Ensures-if false m n h k = k refl

  pub Ensures-imp :
      {R : A → Type 0} (m : Exec E W A) → ((a : A) → R a → Q a) → Ensures P R m → Ensures P Q m
  Ensures-imp {R} m h k = record { at = λ w. ((k.at w).0, Returns-imp R (m w).reply h (k.at w).1) }

module _ {E W A : Type 0} {P : E → Type 0} where
  pub Ensures-Emits : (m : Exec E W A) → Emits P m → Ensures P (λ a. Unit) m
  Ensures-Emits m h = record { at = λ w. (h.at w, Returns-any (m w).reply) }

  -- What a call returns the client answered in some state.
  pub Ensures-call :
      (op : W → Result A × W) (event : Result A → E)
      → ((r : Result A) → P (event r))
      → Ensures P (λ a. (w : W) × ((op w).0 ≡ ok a)) (call op event)
  Ensures-call op event h = record {
    at = λ w. ((h (op w).0, tt), Returns-intro (op w).0 λ a q. (w, q));
  }

  pub Ensures-lift :
      {Q : A → Type 0} (r : Result A) → ((a : A) → r ≡ ok a → Q a) → Ensures P Q (lift {W = W} r)
  Ensures-lift r h = record { at = λ w. (tt, Returns-intro r h) }

  pub Emits-Ensures : {Q : A → Type 0} (m : Exec E W A) → Ensures P Q m → Emits P m
  Emits-Ensures m h = record { at = λ w. (h.at w).0 }

module _ {E W A : Type 0} {P : E → Type 0} {Q : A → Type 0} where
  pub Ensures-reply : (m : Exec E W A) (w : W) (a : A) → Ensures P Q m → (m w).reply ≡ ok a → Q a
  Ensures-reply m w a h q = subst (Returns Q) q (h.at w).1

  -- A property of the value alone.
  pub Ensures-of_reply :
      (m : Exec E W A) → ((w : W) (a : A) → (m w).reply ≡ ok a → Q a) → Emits P m → Ensures P Q m
  Ensures-of_reply m h k = record { at = λ w. (k.at w, Returns-intro (m w).reply (h w)) }

module _ {E W A B : Type 0} {P : E → Type 0} {Q : A → Type 0} {R : B → Type 0} where
  Ensures-resume :
      (calls : List E) (r : Result A) (f : A → Exec E W B) (w : W)
      → All P calls
      → Returns Q r
      → ((a : A) → Q a → Ensures P R (f a))
      → All P (calls ++ (resume r f w).trace) × Returns R (resume r f w).reply
  Ensures-resume calls (ok a) f w h q k =
      let run = (k a q).at w in (All-append P calls _ h run.0, run.1)
  Ensures-resume calls (err e) f w h q k = (All-append P calls _ h tt, tt)

  pub Ensures-bind :
      (m : Exec E W A) (f : A → Exec E W B)
      → Ensures P Q m
      → ((a : A) → Q a → Ensures P R (f a))
      → Ensures P R (m >>= f)
  unfolding ◌>>=◌
  Ensures-bind m f h k = record {
    at = λ w. let r = m w in Ensures-resume r.trace r.reply f r.world (h.at w).0 (h.at w).1 k;
  }

pub with_manager-Ensures :
    {E W C A : Type 0} {P : E → Type 0} {Q : A → Type 0} (missing : String) (o : Option C)
    (f : C → Exec E W A)
    → ((c : C) → Ensures P Q (f c))
    → Ensures P Q (with_manager missing o f)
unfolding with_manager
with_manager-Ensures missing none f h = Ensures-raise _
with_manager-Ensures missing (some c) f h = h c

pub if_given-Ensures :
    {E W C A : Type 0} {P : E → Type 0} {Q : A → Type 0} (o : Option C) (m : Exec E W A)
    (f : C → Exec E W A)
    → Ensures P Q m
    → ((c : C) → Ensures P Q (f c))
    → Ensures P Q (if_given o m f)
unfolding if_given
if_given-Ensures none m f h k = h
if_given-Ensures (some c) m f h k = k c

module _ {E F W A : Type 0} {P : F → Type 0} {Q : A → Type 0} where
  pub Ensures-via :
      (note : E → F) (m : Exec E W A) → Ensures (λ e. P (note e)) Q m → Ensures P Q (via note m)
  Ensures-via note m h = record { at = λ w. (All-map P note (m w).trace (h.at w).0, (h.at w).1) }

Returns-attempt :
    {A : Type 0} (Q : Result A → Type 0) (r : Result A)
    → ((a : A) → r ≡ ok a → Q (ok a))
    → ((e : Error) → Q (err e))
    → Returns Q (ok r)
Returns-attempt Q (ok a) h k = h a refl
Returns-attempt Q (err e) h k = k e

module _ {E W A : Type 0} {P : E → Type 0} {Q : Result A → Type 0} where
  pub Ensures-attempt :
      {R : A → Type 0} (m : Exec E W A)
      → Ensures P R m
      → ((a : A) → R a → Q (ok a))
      → ((e : Error) → Q (err e))
      → Ensures P Q (attempt m)
  Ensures-attempt {R} m h k l = record {
    at = λ w.
        let run = h.at w in
        (run.0, Returns-attempt Q (m w).reply (λ a q. k a (subst (Returns R) q run.1)) l);
  }

-- Any run, where nothing is asked of it.
pub Ensures-any : {E W A : Type 0} (m : Exec E W A) → Ensures (λ e. Unit) (λ a. Unit) m
Ensures-any m = record { at = λ w. (All-any (m w).trace, Returns-any (m w).reply) }

-- What a run returns, where its calls do not matter.
pub Ensures-free :
    {E W A : Type 0} {P : E → Type 0} {R Q : A → Type 0} (m : Exec E W A)
    → ((a : A) → R a → Q a)
    → Ensures P R m
    → Ensures (λ e. Unit) Q m
Ensures-free {R} m h k = record {
  at = λ w. (All-any (m w).trace, Returns-imp R (m w).reply h (k.at w).1);
}
