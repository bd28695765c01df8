-- ===== src/Exec.antt =====
-- Calls of the CMP client. A run takes the provider's state, answers as Go's `(value, error)` does,
-- and leaves its calls, with their answers, in a trace.
pub mod Rules
pub mod Ensures
use Prim.Native.Char.{code}
use garden_extension_f5_loca.Prelude.{
  Bool, List, Option, String, [], false, if◌then◌else◌, inl, inr, int_eq, map, nat_eq, none, refl,
  some, string_eq, ℕ, ◌++◌, ◌==◌, ◌∷◌, ◌≡◌, ◌⊎◌,
}

-- ProvisioningPendingError and TerminalProvisioningError have the same fields.
pub record Provisioning : Type 0 where
  pub resource_type : String
  pub resource_id : String
  pub status : String
  pub detail : String

-- fmt.Errorf without and with `%w`, the two provisioning errors, and HTTPStatusError.
pub data Error : Type 0 where
  errorf : String → List String → Error
  wrapf : String → List String → Error → Error
  pending terminal : Provisioning → Error
  http_status : ℕ → Error

-- IsNotFound; `errors.As` looks through what `%w` wraps.
unfoldable pub is_not_found : Error → Bool
is_not_found (wrapf format args e) = is_not_found e
is_not_found (http_status code) = code == 404
is_not_found _ = false

-- IsAlreadyExists
unfoldable pub is_already_exists : Error → Bool
is_already_exists (wrapf format args e) = is_already_exists e
is_already_exists (http_status code) = code == 409
is_already_exists _ = false

-- IsTerminalProvisioning
unfoldable pub is_terminal_provisioning : Error → Option Provisioning
is_terminal_provisioning (wrapf format args e) = is_terminal_provisioning e
is_terminal_provisioning (terminal p) = some p
is_terminal_provisioning _ = none

-- IsProvisioningPending
unfoldable pub is_provisioning_pending : Error → Option Provisioning
is_provisioning_pending (wrapf format args e) = is_provisioning_pending e
is_provisioning_pending (pending p) = some p
is_provisioning_pending _ = none

pub data Result (A : Type 0) : Type 0 where
  ok : A → Result A
  err : Error → Result A

pub Result-cases :
    {A : Type 0} (r : Result A) → ((a : A) × (r ≡ ok a)) ⊎ ((e : Error) × (r ≡ err e))
Result-cases (ok a) = inl (a, refl)
Result-cases (err e) = inr (e, refl)

abbrev pub Done : Type 0
Done = Unit

pub record Run (E W A : Type 0) : Type 0 where
  pub reply : Result A
  pub world : W
  pub trace : List E

abbrev pub Exec : Type 0 → Type 0 → Type 0 → Type 0
Exec E W A = W → Run E W A

module _ {E W A : Type 0} where
  abbrev pub pure : A → Exec E W A
  pure a w = record { reply = ok a; world = w; trace = [] }

  abbrev pub raise : Error → Exec E W A
  raise e w = record { reply = err e; world = w; trace = [] }

  -- A pure function that may fail.
  abbrev pub lift : Result A → Exec E W A
  lift r w = record { reply = r; world = w; trace = [] }

  -- One call of the client, and how the trace notes it.
  abbrev pub call : (W → Result A × W) → (Result A → E) → Exec E W A
  call op event w =
      let (answer, w') = op w in record { reply = answer; world = w'; trace = event answer ∷ [] }

  -- The answer of a run, an error included: for code that inspects `err`.
  abbrev pub attempt : Exec E W A → Exec E W (Result A)
  attempt m w = let r = m w in record { reply = ok r.reply; world = r.world; trace = r.trace }

  abbrev pub after : List E → Run E W A → Run E W A
  after calls r = record r { trace = calls ++ r.trace }

module _ {E W A B : Type 0} where
  abbrev pub resume : Result A → (A → Exec E W B) → Exec E W B
  resume (ok a) f = f a
  resume (err e) f = raise e

  infixl 10 ◌>>=◌ ◌>>◌
  unfoldable pub ◌>>=◌ : Exec E W A → (A → Exec E W B) → Exec E W B
  ◌>>=◌ m f w = let r = m w in after r.trace (resume r.reply f r.world)

  abbrev pub ◌>>◌ : Exec E W A → Exec E W B → Exec E W B
  m >> n = m >>= λ _. n

module _ {A : Type 0} where
  abbrev pub wrap_err : (Error → Error) → Result A → Result A
  wrap_err f (ok a) = ok a
  wrap_err f (err e) = err (f e)

module _ {E W A : Type 0} where
  -- if err != nil { return fmt.Errorf("...: %w", err) }
  abbrev pub wrapping : (Error → Error) → Exec E W A → Exec E W A
  wrapping f m w = let r = m w in record r { reply = wrap_err f r.reply }

abbrev pub tolerate_missing : (Error → Error) → Result Done → Result Done
tolerate_missing f (ok _) = ok tt
tolerate_missing f (err e) = if is_not_found e then ok tt else err (f e)

module _ {E W : Type 0} where
  -- if err := delete(); err != nil && !IsNotFound(err) { return fmt.Errorf("...: %w", err) }
  abbrev pub unless_missing : (Error → Error) → Exec E W Done → Exec E W Done
  unless_missing f m w = let r = m w in record r { reply = tolerate_missing f r.reply }

-- A manager that the deployer may lack.
unfoldable pub with_manager : {E W C A : Type 0} → String → Option C → (C → Exec E W A) → Exec E W A
with_manager missing none f = raise (errorf missing [])
with_manager missing (some client) f = f client

-- What depends on whether there is a manager.
unfoldable pub if_given : {E W C A : Type 0} → Option C → Exec E W A → (C → Exec E W A) → Exec E W A
if_given none m f = m
if_given (some client) m f = f client

-- The same run, with its calls noted in a larger set of calls.
abbrev pub via : {E F W A : Type 0} → (E → F) → Exec E W A → Exec F W A
via note m w = let r = m w in record { reply = r.reply; world = r.world; trace = map note r.trace }
